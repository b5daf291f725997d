-- ===== src/Server/Wsgi/Silence.antt =====
-- How actions of spyne/server/wsgi.py that are put together call `start_response`.
use spyne.Prelude.{
  nat_eq, ℕ, ◌+◌, ◌≡◌, refl, ap, ◌∙◌, arith, Bool, true, false, Option, [], ◌∷◌, ◌++◌, length,
  length-append, if◌then◌else◌,
}
use spyne.Prelude.Exec.{
  Result, ok, err, pure, raise, lift, gets, catch_result, try_except, continue, ◌>>=◌,
}
use spyne.Fault.{Exn, is_exception}
use spyne.Context.{Action}
use spyne.Server.Wsgi.{WsgiState, WsgiAction, on_state}

-- `m` does not call `start_response`.
pub record IsSilent {S A : Type 0} (m : WsgiAction S A) : Type 0 where
  pub at : (w : WsgiState S) → (m w).1.started ≡ w.started

-- `m` does not call `start_response`, and raises no Exception under the condition `Q`.
pub record IsQuiet {S A : Type 0} (Q : Type 0) (m : WsgiAction S A) : Type 0 where
  pub at : (w : WsgiState S) → (m w).1.started ≡ w.started
  pub only : (w : WsgiState S) (e : Exn) → Q → (m w).0 ≡ err e → is_exception e ≡ false

-- What `m` does about `start_response` if it ends with `r`: one call if it returns, none if it
-- raises an Exception under the condition `Q`.
abbrev pub Answered : {S A : Type 0} → Type 0 → Result Exn A → WsgiState S → WsgiState S → Type 0
Answered Q (ok a) w w' = length w'.started ≡ length w.started + 1
Answered Q (err e) w w' = Q → is_exception e ≡ true → w'.started ≡ w.started

pub record AnswersOnce {S A : Type 0} (Q : Type 0) (m : WsgiAction S A) : Type 0 where
  pub at : (w : WsgiState S) → Answered Q (m w).0 w (m w).1

module _ {S A : Type 0} where
  pub IsSilent-pure : (a : A) → IsSilent {S = S} (pure a)
  IsSilent-pure a = record { at = λ w. refl }

  pub IsSilent-raise : (e : Exn) → IsSilent {S = S} {A = A} (raise e)
  IsSilent-raise e = record { at = λ w. refl }

  pub IsSilent-lift : (r : Result Exn A) → IsSilent {S = S} (lift r)
  IsSilent-lift r = record { at = λ w. refl }

  pub IsSilent-gets : (f : WsgiState S → A) → IsSilent (gets {E = Exn} f)
  IsSilent-gets f = record { at = λ w. refl }

  pub IsSilent-on_state : (m : Action S A) → IsSilent (on_state m)
  IsSilent-on_state m = record { at = λ w. refl }

  pub IsSilent-if :
      (b : Bool) (m n : WsgiAction S A) → IsSilent m → IsSilent n → IsSilent (if b then m else n)
  IsSilent-if true m n km kn = km
  IsSilent-if false m n km kn = kn

  IsSilent-catch :
      (r : Result Exn A) (h : Exn → WsgiAction S A)
      → ((e : Exn) → IsSilent (h e))
      → IsSilent (catch_result r h)
  IsSilent-catch (ok a) h kh = record { at = λ w. refl }
  IsSilent-catch (err e) h kh = kh e

  pub IsSilent-try :
      (m : WsgiAction S A) (h : Exn → WsgiAction S A)
      → IsSilent m
      → ((e : Exn) → IsSilent (h e))
      → IsSilent (try_except m h)
  IsSilent-try m h km kh = record { at = λ w. (IsSilent-catch (m w).0 h kh).at (m w).1 ∙ km.at w }

  pub AnswersOnce-raise : (Q : Type 0) (e : Exn) → AnswersOnce {S = S} {A = A} Q (raise e)
  AnswersOnce-raise Q e = record { at = λ w _ _. refl }

  pub IsQuiet-pure : (Q : Type 0) (a : A) → IsQuiet {S = S} Q (pure a)
  IsQuiet-pure Q a = record { at = λ w. refl; only = λ w e q p. cc }

  pub IsQuiet-gets : (Q : Type 0) (f : WsgiState S → A) → IsQuiet Q (gets {E = Exn} f)
  IsQuiet-gets Q f = record { at = λ w. refl; only = λ w e q p. cc }

module _ {S B : Type 0} where
  Answered-from :
      (Q : Type 0) (r : Result Exn B) (w v v' : WsgiState S)
      → v.started ≡ w.started
      → Answered Q r v v'
      → Answered Q r w v'
  Answered-from Q (ok b) w v v' e h = omega (arith, ap length e)
  Answered-from Q (err x) w v v' e h = λ q p. h q p ∙ e

module _ {S A B : Type 0} where
  IsSilent-continue :
      (r : Result Exn A) (f : A → WsgiAction S B)
      → ((a : A) → IsSilent (f a))
      → IsSilent (continue r f)
  IsSilent-continue (ok a) f kf = kf a
  IsSilent-continue (err e) f kf = record { at = λ w. refl }

  pub IsSilent-bind :
      (m : WsgiAction S A) (f : A → WsgiAction S B)
      → IsSilent m
      → ((a : A) → IsSilent (f a))
      → IsSilent (m >>= f)
  IsSilent-bind m f km kf = record {
    at = λ w. (IsSilent-continue (m w).0 f kf).at (m w).1 ∙ km.at w;
  }

  pub IsQuiet-continue :
      {Q : Type 0} (r : Result Exn A) (f : A → WsgiAction S B)
      → ((e : Exn) → Q → r ≡ err e → is_exception e ≡ false)
      → ((a : A) → IsQuiet Q (f a))
      → IsQuiet Q (continue r f)
  IsQuiet-continue (ok a) f only kf = kf a
  IsQuiet-continue (err x) f only kf = record {
    at = λ w. refl;
    only = λ w e q p. ground (arith, only x q refl);
  }

  pub IsQuiet-bind :
      {Q : Type 0} (m : WsgiAction S A) (f : A → WsgiAction S B)
      → IsQuiet Q m
      → ((a : A) → IsQuiet Q (f a))
      → IsQuiet Q (m >>= f)
  IsQuiet-bind m f km kf = record {
    at = λ w. (IsQuiet-continue (m w).0 f (km.only w) kf).at (m w).1 ∙ km.at w;
    only = λ w. (IsQuiet-continue (m w).0 f (km.only w) kf).only (m w).1;
  }

  AnswersOnce-continue :
      {Q : Type 0} (r : Result Exn A) (f : A → WsgiAction S B)
      → ((a : A) → AnswersOnce Q (f a))
      → AnswersOnce Q (continue r f)
  AnswersOnce-continue (ok a) f kf = kf a
  AnswersOnce-continue {Q} (err e) f kf = AnswersOnce-raise Q e

  pub AnswersOnce-bind :
      {Q : Type 0} (m : WsgiAction S A) (f : A → WsgiAction S B)
      → IsSilent m
      → ((a : A) → AnswersOnce Q (f a))
      → AnswersOnce Q (m >>= f)
  AnswersOnce-bind m f km kf = record {
    at = λ w.
        Answered-from _ _ w (m w).1 _ (km.at w) ((AnswersOnce-continue (m w).0 f kf).at (m w).1);
  }

pub ruleset silent_rules = (
  IsSilent-pure, IsSilent-raise, IsSilent-lift, IsSilent-gets, IsSilent-on_state, IsSilent-if,
  IsSilent-bind, IsSilent-try,
)

pub ruleset quiet_rules = (IsQuiet-pure, IsQuiet-gets, IsQuiet-bind)

module _ {S A : Type 0} (Q : Type 0) (w v v' : WsgiState S) where
  pub Answered-ok :
      (r : Result Exn A) {a : A}
      → r ≡ ok a
      → v ≡ v'
      → Answered Q r w v
      → length v'.started ≡ length w.started + 1
  Answered-ok (ok a) p q h = rw q at h
  Answered-ok (err e) p q h = cc

  pub Answered-err :
      (r : Result Exn A) {e : Exn}
      → r ≡ err e
      → v ≡ v'
      → Q
      → is_exception e ≡ true
      → Answered Q r w v
      → v'.started ≡ w.started
  Answered-err (ok a) p q quiet t h = cc
  Answered-err (err x) p q quiet t h = ground (arith, h quiet)

abbrev pub begun : {S : Type 0} → WsgiState S → WsgiState S
begun w = record w { started = w.started ++ w.state.ctx.resp_code ∷ [] }

pub finished :
    {S A : Type 0} {Q : Type 0} (r : Result Exn A) (w v : WsgiState S) (x : Option ℕ)
    → v.started ≡ w.started ++ x ∷ []
    → ((e : Exn) → Q → r ≡ err e → is_exception e ≡ false)
    → Answered Q r w v
finished (ok a) w v x p only = omega (arith, ap length p, length-append w.started (x ∷ []))
finished (err e) w v x p only = λ q h. cc (only e q refl)
