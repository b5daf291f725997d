-- ===== src/Application/Quiet.antt =====
-- The code of the user and the wrappers around it fire no event of their own.
use spyne.Prelude.{nat_eq, ℕ, ◌≡◌, refl, ◌∙◌, Bool, true, false, Option, none, some, List}
use spyne.Prelude.Exec.{Exec, Result, ok, err, pure, raise, lift, gets, ◌>>=◌, continue}
use spyne.Fault.{Exn}
use spyne.Evmgr.{OrderedSet}
use spyne.Prelude.{if◌then◌else◌}
use spyne.Context.{Val, MethodContext, Descriptor, State, Action, on_ctx}
use spyne.Application.{
  Env, Arg, call_wrapper, call_with, call_member, service_call, service_call_wrapper, check_when,
  call_given, call_function,
}

-- `m` leaves the record of events as it is, whether it returns or raises.
pub record IsQuiet {S A : Type 0} (m : Action S A) : Type 0 where
  pub at : (s : State S) → (m s).1.fired ≡ s.fired

module _ {S A : Type 0} where
  pub IsQuiet-pure : (a : A) → IsQuiet {S = S} (pure a)
  IsQuiet-pure a = record { at = λ s. refl }

  pub IsQuiet-raise : (e : Exn) → IsQuiet {S = S} {A = A} (raise e)
  IsQuiet-raise e = record { at = λ s. refl }

  pub IsQuiet-lift : (r : Result Exn A) → IsQuiet {S = S} (lift r)
  IsQuiet-lift r = record { at = λ s. refl }

  pub IsQuiet-gets : (f : State S → A) → IsQuiet (gets {E = Exn} f)
  IsQuiet-gets f = record { at = λ s. refl }

  pub IsQuiet-on_ctx : (m : Exec (MethodContext S) Exn A) → IsQuiet (on_ctx m)
  IsQuiet-on_ctx m = record { at = λ s. refl }

  pub IsQuiet-if :
      (b : Bool) (m n : Action S A) → IsQuiet m → IsQuiet n → IsQuiet (if b then m else n)
  IsQuiet-if true m n km kn = km
  IsQuiet-if false m n km kn = kn

module _ {S A B : Type 0} where
  IsQuiet-continue :
      (r : Result Exn A) (f : A → Action S B) → ((a : A) → IsQuiet (f a)) → IsQuiet (continue r f)
  IsQuiet-continue (ok a) f kf = kf a
  IsQuiet-continue (err e) f kf = record { at = λ s. refl }

  pub IsQuiet-bind :
      (m : Action S A) (f : A → Action S B)
      → IsQuiet m
      → ((a : A) → IsQuiet (f a))
      → IsQuiet (m >>= f)
  IsQuiet-bind m f km kf = record { at = λ s. (IsQuiet-continue (m s).0 f kf).at (m s).1 ∙ km.at s }

pub ruleset quiet_rules = (
  IsQuiet-pure, IsQuiet-raise, IsQuiet-lift, IsQuiet-gets, IsQuiet-on_ctx, IsQuiet-if, IsQuiet-bind,
)

module _ {S : Type 0} (os : OrderedSet ℕ S) (env : Env S) where
  service_call-IsQuiet :
      (d : Descriptor S) (args : Option (List Arg)) (f : Option ℕ)
      → IsQuiet (service_call os env d args f)
  unfolding service_call
  service_call-IsQuiet d args none = search quiet_rules
  service_call-IsQuiet d none (some f) = search quiet_rules
  service_call-IsQuiet d (some given) (some f) = search quiet_rules

  service_call_wrapper-IsQuiet :
      (d : Descriptor S) (args : Option (List Arg)) → IsQuiet (service_call_wrapper os env d args)
  unfolding service_call_wrapper
  service_call_wrapper-IsQuiet d args = search (quiet_rules, service_call-IsQuiet)

  call_function-IsQuiet : (given : List Arg) (f : Option ℕ) → IsQuiet (call_function os env given f)
  unfolding call_function
  call_function-IsQuiet given none = search quiet_rules
  call_function-IsQuiet given (some f) = search quiet_rules

  call_given-IsQuiet : (d : Descriptor S) (given : List Arg) → IsQuiet (call_given os env d given)
  unfolding call_given
  call_given-IsQuiet d given =
      search (quiet_rules, call_function-IsQuiet, service_call_wrapper-IsQuiet)

  check_when-IsQuiet : (w : Option ℕ) (inst : Val) → IsQuiet (check_when os env w inst)
  unfolding check_when
  check_when-IsQuiet none inst = search quiet_rules
  check_when-IsQuiet (some w) inst = search quiet_rules

  call_member-IsQuiet : (d : Descriptor S) (inst : Option Val) → IsQuiet (call_member os env d inst)
  unfolding call_member
  call_member-IsQuiet d none = search quiet_rules
  call_member-IsQuiet d (some inst) =
      search (quiet_rules, check_when-IsQuiet, call_given-IsQuiet) depth 9

  call_with-IsQuiet : (d : Descriptor S) (f : Option ℕ) → IsQuiet (call_with os env d f)
  unfolding call_with
  call_with-IsQuiet d none = search quiet_rules
  call_with-IsQuiet d (some f) =
      search (quiet_rules, call_member-IsQuiet, service_call_wrapper-IsQuiet)

  pub call_wrapper-IsQuiet : (d : Descriptor S) → IsQuiet (call_wrapper os env d)
  unfolding call_wrapper
  call_wrapper-IsQuiet d = search (quiet_rules, call_with-IsQuiet)
