-- ===== src/Trigger/Mapping/Configured.antt =====
-- What a config mapping does to the config of the template.
use openconveyor.Prelude.{
  false, ◌≡◌, refl, ◌∙◌, Option, none, some, [], ◌∷◌, inl, inr, Text, text_eq, is_empty, arith,
  Bool-cases, subst, Map, lookup, store, lookup-store, if◌then◌else◌,
}
use openconveyor.Errors.{ok, >>=-eq-ok, ok-injective}
use openconveyor.Api.{AgentRef}
use openconveyor.Trigger.Mapping.{Codec, set_config_key, config_fields}

module _ {V : Type 0} (codec : Codec V) where
  -- The members of a config: none without one, else those that its JSON has.
  abbrev pub HasMembers : Option Text → Map V → Type 0
  HasMembers none m = m ≡ []
  HasMembers (some []) m = m ≡ []
  HasMembers (some (c ∷ raw)) m = codec.decode (c ∷ raw) ≡ ok m

  config_fields-HasMembers :
      (config : Option Text) (m : Map V) → config_fields codec config ≡ ok m → HasMembers config m
  unfolding config_fields
  config_fields-HasMembers none m h = cc
  config_fields-HasMembers (some []) m h = cc
  config_fields-HasMembers (some (c ∷ raw)) m h = ground arith

  some-HasMembers :
      (raw : Text) (m : Map V)
      → is_empty raw ≡ false
      → codec.decode raw ≡ ok m
      → HasMembers (some raw) m
  some-HasMembers [] m e h = cc
  some-HasMembers (c ∷ raw) m e h = h

  -- A config mapping that succeeds has a key. It sets that member of the config to the value as a
  -- string, over one that the template has, and leaves every other member and the agent as they
  -- were.
  pub set_config_key_lem :
      (agent next : AgentRef) (key value : Text)
      → set_config_key codec agent key value ≡ ok next
      → (is_empty key ≡ false)
        × (next.ref ≡ agent.ref)
        × ((before after : Map V) × HasMembers agent.config before
            × HasMembers next.config after
            × ((k : Text)
                → lookup k after
                  ≡ (if text_eq key k then some (codec.of_text value) else lookup k before)))
  unfolding set_config_key
  set_config_key_lem agent next key value h = elim (Bool-cases (is_empty key)) [
    | inl empty ↦ absurd (cc (rw empty at h))
    | inr full ↦
        let (before, decoded, rest) =
          >>=-eq-ok (config_fields codec agent.config) _ (rw full at h) in
        let (raw, marshalled, made) =
          >>=-eq-ok (codec.marshal (store key (codec.of_text value) before)) _ rest in
        let (some_raw, after, reads, same) =
          codec.decode-marshal (store key (codec.of_text value) before) raw marshalled in
        (
          full,
          subst (λ (a : AgentRef). a.ref ≡ agent.ref) (ok-injective _ next made) refl,
          (
            before,
            after,
            config_fields-HasMembers agent.config before decoded,
            subst (λ (a : AgentRef). HasMembers a.config after) (ok-injective _ next made)
                (some-HasMembers raw after some_raw reads),
            λ k. same k ∙ lookup-store key k (codec.of_text value) before,
          ),
        )
  ]
