-- ===== src/Server/Wsgi/Wsdl/Cached.antt =====
-- `handle_wsdl_request` of spyne/server/wsgi.py builds the interface document once.
use Prim.Native.String.{len}
use spyne.Prelude.{
  ℕ, nat_eq, ◌≡◌, ◌≢◌, ◌⊎◌, inl, inr, refl, ap, sym, ◌∙◌, String, Option, none, some,
}
use spyne.Prelude.Exec.{Result, ok, err, continue, pure, lift, ◌>>=◌, ◌>>◌}
use spyne.Fault.{Exn}
use spyne.Evmgr
use spyne.Evmgr.{OrderedSet}
use spyne.Context.{MethodContext, on_ctx, wsdl, event_eq}
use spyne.Application.{Env}
use spyne.Server.{Protocol}
use spyne.Server.Wsgi.{Wsgi, WsgiState, on_state, close}
use spyne.Server.Wsgi.Wsdl.{
  on_server, start, WsdlDocument, WsdlState, WsdlAction, handle_wsdl_request, http_500, answer_wsdl,
  or_type_error, update_ctx, send_wsdl,
}

-- The cached document and the state of the interface document stay as they are.
record Leaves {S D A : Type 0} (m : WsdlAction S D A) : Type 0 where
  at : (w : WsdlState S D) → ((m w).1.cached ≡ w.cached) × ((m w).1.document ≡ w.document)

-- A result, if there is one, is `a`.
record Yields {S D A : Type 0} (a : A) (m : WsdlAction S D A) : Type 0 where
  at : (w : WsdlState S D) (b : A) → (m w).0 ≡ ok b → b ≡ a

module _ {S D A : Type 0} where
  Leaves-pure : (a : A) → Leaves {S = S} {D = D} (pure a)
  Leaves-pure a = record { at = λ w. (refl, refl) }

  Leaves-lift : (r : Result Exn A) → Leaves {S = S} {D = D} (lift r)
  Leaves-lift r = record { at = λ w. (refl, refl) }

  Yields-pure : (a : A) → Yields {S = S} {D = D} a (pure a)
  Yields-pure a = record { at = λ w b e. cc }

module _ {S D A B : Type 0} where
  Leaves-continue :
      (r : Result Exn A) (f : A → WsdlAction S D B)
      → ((a : A) → Leaves (f a))
      → Leaves (continue r f)
  Leaves-continue (ok a) f k = k a
  Leaves-continue (err e) f k = record { at = λ w. (refl, refl) }

  Leaves-bind :
      (m : WsdlAction S D A) (f : A → WsdlAction S D B)
      → Leaves m
      → ((a : A) → Leaves (f a))
      → Leaves (m >>= f)
  Leaves-bind m f k l = record {
    at = λ w.
        let first = k.at w in
        let rest = (Leaves-continue (m w).0 f l).at (m w).1 in (rest.0 ∙ first.0, rest.1 ∙ first.1);
  }

  Yields-continue :
      (b : B) (r : Result Exn A) (f : A → WsdlAction S D B)
      → ((a : A) → Yields b (f a))
      → Yields b (continue r f)
  Yields-continue b (ok a) f k = k a
  Yields-continue b (err e) f k = record { at = λ w c h. cc }

  Yields-bind :
      (b : B) (m : WsdlAction S D A) (f : A → WsdlAction S D B)
      → ((a : A) → Yields b (f a))
      → Yields b (m >>= f)
  Yields-bind b m f k = record { at = λ w. (Yields-continue b (m w).0 f k).at (m w).1 }

-- A result, if there is one, is the page for a failure, or the document that is cached by then.
record Caches {S D : Type 0} (m : WsdlAction S D String) : Type 0 where
  at :
      (w : WsdlState S D) (b : String) → (m w).0 ≡ ok b → (b ≡ http_500) ⊎ ((m w).1.cached ≡ some b)

some_injective : {a b : String} → some a ≡ some b → b ≡ a
some_injective e = cc

module _ {S D : Type 0} where
  Caches-500 : Caches {S = S} {D = D} (pure http_500)
  Caches-500 = record { at = λ w b e. inl (ok_injective b e) }
    where
      ok_injective : (b : String) → ◌≡◌ {A = Result Exn String} (ok http_500) (ok b) → b ≡ http_500
      ok_injective b e = cc

module _ {S D A : Type 0} where
  Caches-continue :
      (r : Result Exn A) (f : A → WsdlAction S D String)
      → ((a : A) → Caches (f a))
      → Caches (continue r f)
  Caches-continue (ok a) f k = k a
  Caches-continue (err e) f k = record { at = λ w b h. cc }

  Caches-bind :
      (m : WsdlAction S D A) (f : A → WsdlAction S D String)
      → ((a : A) → Caches (f a))
      → Caches (m >>= f)
  Caches-bind m f k = record { at = λ w. (Caches-continue (m w).0 f k).at (m w).1 }

module _ {S D : Type 0} (os : OrderedSet ℕ S) (env : Env S) (prot : Protocol S) (wsgi : Wsgi S)
    (d : WsdlDocument D) where
  send_wsdl-Leaves :
      (document : Option String) → Leaves (send_wsdl {D = D} os env prot wsgi (some d) document)
  send_wsdl-Leaves document = search (Leaves-pure, Leaves-lift, Leaves-bind) depth 14

  -- what follows the length of the body
  abbrev sent : String → WsdlAction S D String
  sent body = do
    update_ctx os env prot wsgi (some d) (λ c. record c { content_length = some (len body) })
    start os env prot wsgi (some d) 200
    on_server os env prot wsgi (some d) (on_state (on_ctx (close os env prot wsgi)))
    pure body

  sent-Yields : (body : String) → Yields body (sent body)
  sent-Yields body = search (Yields-pure, Yields-bind) depth 8

  sent_from :
      (w : WsdlState S D) (o : Option String) (b : String)
      → (continue (or_type_error o) sent w).0 ≡ ok b
      → o ≡ some b
  sent_from w none b e = cc
  sent_from w (some body) b e = ap some (sym ((sent-Yields body).at w b e))

  -- The handlers of `wsdl` leave the document in the context as it is.
  abbrev pub KeepsDocument : Type 0
  KeepsDocument =
      (c : MethodContext S)
      → (Evmgr.fire_event os env.handler wsgi.server_events wsdl c).1.transport_wsdl
        ≡ c.transport_wsdl

  fired_from :
      (r : Result Exn (Unit {0})) (w : WsdlState S D) (b : String)
      → (continue r (λ _ v. continue (or_type_error v.server.state.ctx.transport_wsdl) sent v) w).0
        ≡ ok b
      → w.server.state.ctx.transport_wsdl ≡ some b
  fired_from (ok a) w b e = sent_from w w.server.state.ctx.transport_wsdl b e
  fired_from (err x) w b e = cc

  send_wsdl_from :
      (w : WsdlState S D) (document : Option String) (b : String)
      → KeepsDocument
      → (send_wsdl {D = D} os env prot wsgi (some d) document w).0 ≡ ok b
      → document ≡ some b
  send_wsdl_from w document b keeps e =
      let c = record (w.server.state.ctx) { transport_wsdl = document } in
      let r = Evmgr.fire_event os env.handler wsgi.server_events wsdl c in
      let server' = record (w.server) { state = record (w.server.state) { ctx = r.1 } } in
      sym (keeps c) ∙ fired_from r.0 (record w { server = server' }) b e

  -- A document that is cached is what `handle_wsdl_request` answers, and nothing is built.
  abbrev pub Keeps : String → WsdlState S D → Result Exn String × WsdlState S D → Type 0
  Keeps body w r =
      (r.1.cached ≡ some body)
      × (r.1.document ≡ w.document)
      × ((b : String) → r.0 ≡ ok b → b ≡ body)

  handle_wsdl_request-Keeps :
      (w : WsdlState S D) (url body : String)
      → KeepsDocument
      → w.cached ≡ some body
      → Keeps body w (handle_wsdl_request os env prot wsgi (some d) url w)
  unfolding handle_wsdl_request
  handle_wsdl_request-Keeps w url body keeps h =
      let w' : WsdlState S D = record w { cached = some body } in
      rw h (
        ((send_wsdl-Leaves (some body)).at w').0,
        ((send_wsdl-Leaves (some body)).at w').1,
        λ b e. some_injective (send_wsdl_from w' (some body) b keeps e),
      )

  answer_wsdl-Caches :
      KeepsDocument → (e : Option Exn) → Caches (answer_wsdl {D = D} os env prot wsgi (some d) e)
  answer_wsdl-Caches keeps none = record {
    at = λ w b e. inr (((send_wsdl-Leaves w.cached).at w).0 ∙ send_wsdl_from w w.cached b keeps e);
  }
  answer_wsdl-Caches keeps (some x) = search (Caches-bind, Caches-500) depth 6

  handle_wsdl_request-Caches :
      KeepsDocument → (url : String) → Caches (handle_wsdl_request os env prot wsgi (some d) url)
  unfolding handle_wsdl_request
  handle_wsdl_request-Caches keeps url = search (Caches-bind, answer_wsdl-Caches keeps) depth 8

  -- Where the handlers of `wsdl` leave the document in the context as it is: once a request was
  -- answered with something else than the page for a failure, that is the cached document. No later
  -- request builds it again, whatever its URL and its context are and whatever calls were answered
  -- in between, and each that is answered is answered with the same body.
  pub handle_wsdl_request_once :
      (w : WsdlState S D) (server' : WsgiState S) (url url' body : String)
      → KeepsDocument
      → (handle_wsdl_request os env prot wsgi (some d) url w).0 ≡ ok body
      → body ≢ http_500
      → Keeps body
          (record ((handle_wsdl_request os env prot wsgi (some d) url w).1) { server = server' })
          (handle_wsdl_request os env prot wsgi
            (some d)
            url'
            (record ((handle_wsdl_request os env prot wsgi (some d) url w).1) { server = server' }))
  handle_wsdl_request_once w server' url url' body keeps e ne =
      elim ((handle_wsdl_request-Caches keeps url).at w body e) [
        | inl failure ↦ absurd (ne failure)
        | inr cached ↦ handle_wsdl_request-Keeps _ url' body keeps cached
      ]
