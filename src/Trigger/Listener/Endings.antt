-- ===== src/Trigger/Listener/Endings.antt =====
-- When the adapter ends without an error, and what it serves.
use openconveyor.Prelude.{
  true, ◌≡◌, ◌≢◌, refl, ◌⊎◌, inl, inr, ◌↔◌, Option, none, some, Text, codes, text_eq, text_eq_iff,
  is_some, Bool-cases,
}
use openconveyor.Errors.{Result, ok, Result-cases}
use openconveyor.Trigger.Handler.{Response}
use openconveyor.Trigger.Listener.{
  healthy, handled, mux, closed, broken, Ending, cancelled, served, ended, serve_error,
  after_listen, start,
}

-- The context was cancelled, or the server was closed.
abbrev pub IsOrderly : Ending → Type 0
IsOrderly (cancelled shutdown) = Unit
IsOrderly (served closed) = Unit
IsOrderly (served (broken e)) = ⊥

ended-IsOrderly : (ending : Ending) → (ended ending ≡ ok tt) ↔ IsOrderly ending
unfolding ended serve_error
ended-IsOrderly (cancelled shutdown) = (λ h. tt, λ h. refl)
ended-IsOrderly (served closed) = (λ h. tt, λ h. refl)
ended-IsOrderly (served (broken e)) = (λ h. cc, λ h. absurd h)

module _ {H : Type 0} where
  -- Start returns no error exactly if it has a Handler, the address can be listened on, and it then
  -- ends by the end of its context, whatever Shutdown says, or because the server was closed.
  pub start_iff :
      (handler : Option H) (addr : Text) (listen : Text → Result (Unit {0})) (ending : Ending)
      → (start handler addr listen ending ≡ ok tt)
        ↔ ((is_some handler ≡ true) × (listen addr ≡ ok tt) × IsOrderly ending)
  unfolding start after_listen
  start_iff none addr listen ending = (λ h. cc, λ h. cc h.0)
  start_iff (some handler) addr listen ending = elim (Result-cases (listen addr)) [
    | inl (u, bound) ↦ (
      λ h. (refl, bound, (ended-IsOrderly ending).0 (rw bound at h)),
      λ h. rw bound ((ended-IsOrderly ending).1 h.2),
    )
    | inr (e, refused) ↦ (λ h. absurd (cc (rw refused at h)), λ h. absurd (cc (refused, h.1)))
  ]

-- A request with a clean path is answered by the Handler, whatever its answer is, unless the path is
-- that of the health check. There the answer is 200 and the Handler is not asked, so a class that
-- claims this path gets no webhook on it.
pub mux_lem :
    (clean : Text → Text) (path : Text) (response : Response)
    → clean path ≡ path
    → ((mux clean path response ≡ handled response) × (path ≢ codes "/healthz"))
      ⊎ ((mux clean path response ≡ healthy) × (path ≡ codes "/healthz"))
unfolding mux
mux_lem clean path response tidy =
    let (equal, same) = text_eq_iff path (codes "/healthz") in
    let clean_path : text_eq (clean path) path ≡ true = (text_eq_iff (clean path) path).1 tidy in
    elim (Bool-cases (text_eq path (codes "/healthz"))) [
      | inl health ↦ rw (clean_path, health) (inr (refl, equal health))
      | inr other ↦ rw (clean_path, other) (inl (refl, λ e. cc (same e, other)))
    ]
