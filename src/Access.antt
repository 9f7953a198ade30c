-- ===== src/Access.antt =====
-- deps.py: the keys of the API. A key is a text that compares by its bytes; `None` and the empty text
-- are no key. The hash is a parameter.
use indic_rag.Base.{
  Bool, List, Option, Option-cases, String, Text, [], any, arith, false, if◌then◌else◌, inl, inr,
  is_empty, is_some, keys, list_eq, none, not, some, true, ◌&&◌, ◌==◌, ◌||◌, ◌∷◌, ◌≡◌, nat_eq,
  string_eq, pair_eq,
}

-- `VALID_API_KEYS` (none where authentication is off) and `ADMIN_API_KEY`
pub record Keys : Type 0 where
  pub valid : Option (List Text)
  pub admin : Text

pub data Verdict : Type 0 where
  allowed : Verdict
  unauthorized : Verdict
  admin_not_configured : Verdict
  admin_required : Verdict

-- `any(hmac.compare_digest(cand, k) for k in keys)`
unfoldable pub key_matches : Text → List Text → Bool
key_matches candidate keys = not (is_empty candidate) && any (λ k. candidate == k) keys

unfoldable pub verify_api_key : Keys → Text → Verdict
verify_api_key keys candidate = elim keys.valid [
  | none ↦ allowed
  | some valid ↦ if key_matches candidate valid then allowed else unauthorized
]

unfoldable pub verify_admin_key : Keys → Text → Verdict
verify_admin_key keys candidate =
    if is_empty keys.admin
    then admin_not_configured
    else if key_matches candidate (keys.admin ∷ [])
    then allowed
    else admin_required

unfoldable pub current_owner : (Text → String) → Keys → Text → Option String
current_owner sha256 keys candidate =
    if not (is_some keys.valid) || is_empty candidate then none else some (sha256 candidate)

abbrev pub is_allowed : Verdict → Bool
is_allowed allowed = true
is_allowed unauthorized = false
is_allowed admin_not_configured = false
is_allowed admin_required = false

-- A destructive operation is allowed exactly to the caller that brings the configured admin key: to
-- nobody where none is configured, and to no ordinary key.
pub verify_admin_key-FailsClosed :
    (keys : Keys) (candidate : Text)
    → is_allowed (verify_admin_key keys candidate)
      ≡ (not (is_empty keys.admin) && candidate == keys.admin)
unfolding verify_admin_key key_matches
verify_admin_key-FailsClosed keys candidate = ground (arith, list_eq.beq_iff candidate keys.admin)

-- With authentication on, a caller that is let in has the hash of its key as its owner.
pub current_owner-Some :
    (sha256 : Text → String) (keys : Keys) (candidate : Text)
    → is_some keys.valid ≡ true
    → is_allowed (verify_api_key keys candidate) ≡ true
    → current_owner sha256 keys candidate ≡ some (sha256 candidate)
unfolding current_owner verify_api_key key_matches
current_owner-Some sha256 keys candidate on h = elim (Option-cases keys.valid) [
  | inl e ↦ absurd (ground (arith, e, on))
  | inr (valid, e) ↦ ground (arith, e, h)
]
