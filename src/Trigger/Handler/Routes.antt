-- ===== src/Trigger/Handler/Routes.antt =====
-- Which trigger class answers for a path.
use openconveyor.Prelude.{
  ◌≡◌, refl, ap, some, List, [], ◌∷◌, ◌++◌, inl, inr, Text, codes, text_eq, text_eq_iff, arith,
  trim_right-append, Bool-cases,
}
use openconveyor.Errors.{ok}
use openconveyor.Api.{ClusterTriggerClass}
use openconveyor.Trigger.Handler.{route, matches, only_match, find_trigger_class}

-- The classes split around one that claims the path, and no other class claims it.
record OnlyClaims (path : Text) (items : List ClusterTriggerClass) (ctc : ClusterTriggerClass)
    : Type 0 where
  pub before : List ClusterTriggerClass
  pub after : List ClusterTriggerClass
  pub listed : items ≡ before ++ ctc ∷ after
  pub claims : route ctc.spec.path ≡ route path
  pub none_before : matches (route path) before ≡ []
  pub none_after : matches (route path) after ≡ []

matches-OnlyClaims :
    (path : Text) (items : List ClusterTriggerClass) (ctc : ClusterTriggerClass)
    → matches (route path) items ≡ ctc ∷ []
    → OnlyClaims path items ctc
unfolding matches
matches-OnlyClaims path [] ctc h = cc
matches-OnlyClaims path (c ∷ cs) ctc h =
    elim (Bool-cases (text_eq (route c.spec.path) (route path))) [
      | inl here ↦
          let found : c ∷ matches (route path) cs ≡ ctc ∷ [] = rw here at h in
          record {
            before = [];
            after = cs;
            listed = cc;
            claims = ground (arith, text_eq_iff (route c.spec.path) (route path));
            none_before = refl;
            none_after = cc;
          }
      | inr there ↦
          let rest = matches-OnlyClaims path cs ctc (rw there at h) in
          record {
            before = c ∷ rest.before;
            after = rest.after;
            listed = ap (λ l. c ∷ l) rest.listed;
            claims = rest.claims;
            none_before = rw there rest.none_before;
            none_after = rest.none_after;
          }
    ]

only_match-eq-some :
    (path : Text) (ms : List ClusterTriggerClass) (ctc : ClusterTriggerClass)
    → only_match path ms ≡ ok (some ctc)
    → ms ≡ ctc ∷ []
unfolding only_match
only_match-eq-some path [] ctc h = cc
only_match-eq-some path (c ∷ []) ctc h = cc
only_match-eq-some path (c ∷ d ∷ cs) ctc h = cc

route_slash : (p : Text) → route (p ++ codes "/") ≡ route p
unfolding route
route_slash p = ground (arith, trim_right-append b'/' p)

-- A request finds a trigger class only if that class claims its path and no other does. A slash at
-- the end of the path of the request makes no difference.
find_trigger_class_lem :
    (items : List ClusterTriggerClass) (path : Text)
    → ((ctc : ClusterTriggerClass)
        → find_trigger_class (ok items) path ≡ ok (some ctc)
        → OnlyClaims path items ctc)
      × (find_trigger_class (ok items) (path ++ codes "/") ≡ find_trigger_class (ok items) path)
unfolding find_trigger_class
find_trigger_class_lem items path = (
  (λ ctc h.
      matches-OnlyClaims path items ctc
        (only_match-eq-some (route path) (matches (route path) items) ctc h)),
  ap (λ r. only_match r (matches r items)) (route_slash path),
)
