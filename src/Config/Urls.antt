-- ===== src/Config/Urls.antt =====
-- The URL that a relay's requests go to.
use Prim.Native.String
use text.Mathlib.Text.{starts_with}
use text.Mathlib.TextPositions.{starts_with-append}
use bundle_broadcaster.Common.{
  String, true, false, ◌≡◌, ◌≢◌, ◌||◌, ◌==◌, inl, inr, Bool-cases, arith, eq_iff, refl, Bool, sym,
  ◌∙◌,
}
use bundle_broadcaster.Config.{RelayConfig, resolved_url}

-- The text starts with a scheme for HTTP.
abbrev pub has_scheme : String → Bool
has_scheme s = starts_with s "http://" || starts_with s "https://"

resolved_url-bare :
    (r : RelayConfig)
    → (r.url == "") ≡ false
    → has_scheme r.url ≡ false
    → resolved_url r ≡ String.◌++◌ "https://" r.url
unfolding resolved_url
resolved_url-bare r given bare = ground arith

resolved_url-full : (r : RelayConfig) → has_scheme r.url ≡ true → resolved_url r ≡ r.url
unfolding resolved_url
resolved_url-full r full = ground (arith, eq_iff r.url "")

resolved_url-has_scheme :
    (r : RelayConfig) → (r.url == "") ≡ false → has_scheme (resolved_url r) ≡ true
resolved_url-has_scheme r given = elim (Bool-cases (has_scheme r.url)) [
  | inl full ↦ rw (resolved_url-full r full) full
  | inr bare ↦
      rw (resolved_url-bare r given bare) (ground (arith, starts_with-append "https://" r.url))
]

resolved_url_empty : (r : RelayConfig) → (r.url == "") ≡ true → resolved_url r ≡ ""
unfolding resolved_url
resolved_url_empty r h = rw h refl

-- Unless the configured URL is empty, the resolved one starts with http:// or https://, and it is the
-- configured one if that does already; an empty one stays empty. To resolve it again changes nothing.
pub resolved_url_lem :
    (r : RelayConfig)
    → (r.url ≢ "" → has_scheme (resolved_url r) ≡ true)
      × (has_scheme r.url ≡ true → resolved_url r ≡ r.url)
      × (r.url ≡ "" → resolved_url r ≡ "")
      × (resolved_url (record r { url = resolved_url r }) ≡ resolved_url r)
resolved_url_lem r = (
  λ given. resolved_url-has_scheme r (ground (arith, eq_iff r.url "")),
  resolved_url-full r,
  λ empty. resolved_url_empty r ((eq_iff r.url "").1 empty),
  elim (Bool-cases (r.url == "")) [
    | inl empty ↦
        resolved_url_empty _ ((eq_iff _ _).1 (resolved_url_empty r empty))
        ∙ sym (resolved_url_empty r empty)
    | inr given ↦
        resolved_url-full (record r { url = resolved_url r }) (resolved_url-has_scheme r given)
  ],
)
