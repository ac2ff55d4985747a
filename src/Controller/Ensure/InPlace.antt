-- ===== src/Controller/Ensure/InPlace.antt =====
-- What is in place on the API server when a step has succeeded.
use openconveyor.Prelude.{
  true, false, List, [], ◌∷◌, ◌≡◌, refl, sym, ◌⊎◌, inl, inr, Text, subst, Bool-cases,
}
use openconveyor.Errors.{Err, Result, ok, err, is_not_found, Result-cases}
use openconveyor.Net.{Net}
use openconveyor.Kube.{NetworkPolicy}
use openconveyor.Api.{Task}
use openconveyor.Policy.Egress.{Resolver, build_network_policy}
use openconveyor.Controller.Cluster.{
  Object, Action, found, created, updated, Run, Store, continue, lift, key_of, try_get, read_answer,
  do_create, do_update, write_answer,
}
use openconveyor.Controller.Ensure.{
  policy_kind, with_policy_spec, ensure_owned, write_owned, discard, reconciled,
  ensure_network_policy,
}

-- The same spec and the same labels, of whatever object.
pub record SameSpec (d p : NetworkPolicy) : Type 0 where
  pub selector : p.pod_selector ≡ d.pod_selector
  pub types : p.policy_types ≡ d.policy_types
  pub ingress : p.ingress_rules ≡ d.ingress_rules
  pub egress : p.egress_rules ≡ d.egress_rules
  pub labels : p.meta.labels ≡ d.meta.labels

-- The call shows that the API server has a policy with the spec of `d`.
abbrev pub Confirms : NetworkPolicy → Action → Type 0
Confirms d (found (Object.policy p)) = SameSpec d p
Confirms d (created (Object.policy p) true) = SameSpec d p
Confirms d (updated (Object.policy p) true) = SameSpec d p
Confirms d _ = ⊥

abbrev pub InPlace : NetworkPolicy → List Action → Type 0
InPlace d [] = ⊥
InPlace d (a ∷ log) = Confirms d a ⊎ InPlace d log

module _ {W : Type 0} (store : Store W NetworkPolicy policy_kind) where
  -- A run that succeeds leaves the policy in place.
  abbrev Places : NetworkPolicy → Result (Unit {0}) × Run W → Type 0
  Places d (ok u, run) = InPlace d run.log
  Places d (err e, run) = Unit

  created-Places :
      (d p : NetworkPolicy) (log : List Action) (a : Result NetworkPolicy × W)
      → SameSpec d p
      → Places d (
          continue
            (λ t. lift (ok tt))
            (write_answer policy_kind store
              (created (Object.policy p) true)
              (created (Object.policy p) false)
              log
              a))
  unfolding write_answer
  created-Places d p log (ok t, w) s = inl s
  created-Places d p log (err e, w) s = tt

  updated-Places :
      (d p : NetworkPolicy) (log : List Action) (a : Result NetworkPolicy × W)
      → SameSpec d p
      → Places d (
          continue
            (λ t. lift (ok tt))
            (write_answer policy_kind store
              (updated (Object.policy p) true)
              (updated (Object.policy p) false)
              log
              a))
  unfolding write_answer
  updated-Places d p log (ok t, w) s = inl s
  updated-Places d p log (err e, w) s = tt

  -- A call that reads, then writes what differs.
  read-Places :
      (d owned : NetworkPolicy) (log : List Action) (a : Result NetworkPolicy × W)
      → SameSpec d owned
      → Places d (
          continue
            (write_owned policy_kind store with_policy_spec owned)
            (read_answer policy_kind store log a))
  unfolding read_answer write_owned discard do_create do_update reconciled with_policy_spec
  read-Places d owned log (err e, w) s = elim (Bool-cases (is_not_found e)) [
    | inl missing ↦ rw missing (created-Places d owned log (store.create owned w) s)
    | inr broken ↦ rw broken tt
  ]
  read-Places d owned log (ok live, w) s =
      let next = record owned { meta = record live.meta { labels = owned.meta.labels } } in
      let placed : SameSpec d next = record {
        selector = s.selector;
        types = s.types;
        ingress = s.ingress;
        egress = s.egress;
        labels = s.labels;
      } in
      elim (Bool-cases (store.same live next)) [
        | inl same ↦
            rw same (inl (subst (SameSpec d) (sym (store.same_equal live next same)) placed))
        | inr differs ↦
            rw differs (
              updated-Places d next (found (Object.policy live) ∷ log) (store.update next w) placed)
      ]

  ensure_owned-Places :
      (task : Task) (desired : NetworkPolicy) (run : Run W)
      → Places desired (ensure_owned policy_kind store with_policy_spec task desired run)
  unfolding ensure_owned try_get
  ensure_owned-Places task desired run = elim (Result-cases (store.own task desired)) [
    | inr (e, failed) ↦ rw failed tt
    | inl (owned, made) ↦
        let (o, only_owner) = store.own_keeps task desired owned made in
        rw made (
          read-Places desired owned run.log (store.get (key_of policy_kind owned) run.world) (
            rw only_owner (record {
              selector = refl;
              types = refl;
              ingress = refl;
              egress = refl;
              labels = refl;
            })))
  ]

  error_differs :
      (e : Err) (r r' : Run W) (u : Unit {0})
      → ◌≡◌ {A = Result (Unit {0}) × Run W} (err e, r) (ok u, r')
      → ⊥
  error_differs e r r' u h = cc

  -- When ensureNetworkPolicy succeeds, the API server has a NetworkPolicy with exactly the spec and
  -- the labels that the allowlist resolves to: the controller created it, updated the live one to
  -- it, or found that the live one needed no change.
  pub ensure_network_policy-InPlace :
      (net : Net) (resolver : Resolver) (task : Task) (egress : List Text) (run next : Run W)
      → ensure_network_policy store net resolver task egress run ≡ (ok tt, next)
      → (desired : NetworkPolicy) × (build_network_policy net resolver task.meta.name
            task.meta.namespace egress task.spec.permissions.egress_ports
          ≡ ok desired)
        × InPlace desired next.log
  unfolding ensure_network_policy
  ensure_network_policy-InPlace net resolver task egress run next h =
      elim (Result-cases (
        build_network_policy net resolver task.meta.name task.meta.namespace egress
          task.spec.permissions.egress_ports)) [
            | inr (e, failed) ↦ absurd (error_differs e run next tt (rw failed at h))
            | inl (desired, built) ↦ (
              desired,
              built,
              subst (Places desired) (rw built at h) (ensure_owned-Places task desired run),
            )
          ]
