-- ===== src/Client/New.antt =====
-- `NewClient` of backend/internal/hyperliquid/client.go, and the address that `doInfo` calls.
use Prim.Native.Char.{Char}
use Prim.Native.String.{◌++◌}
use Prim.Native.String.append
use maelstromhub.Prelude.{
  ℕ, zero, suc, ◌*◌, ◌≡◌, refl, false, String, arith, ap, ◌∙◌, Bool-cases, inl, inr, if◌then◌else◌,
}
use maelstromhub.Prelude.Int.{ℤ, pos, negsuc, leb_ℤ, ◌<ℤ◌}
use maelstromhub.Config.{Config, load, Environment}
use maelstromhub.Config.Text.{is}

-- `Config` of this package
pub record ClientConfig : Type 0 where
  pub base_url : String
  pub timeout : ℤ

-- `Client`, but for its limiter
pub record Client : Type 0 where
  pub base_url : String
  pub timeout : ℤ

-- a character in front of a text, unless it is a `/` at the end
abbrev pub unless_last_slash : Char → String → String
unless_last_slash c String.[] = if is "/" c then "" else String.◌∷◌ c ""
unless_last_slash c (String.◌∷◌ d s) = String.◌∷◌ c (String.◌∷◌ d s)

-- `strings.TrimRight(s, "/")`
unfoldable pub trim_slashes : String → String
trim_slashes String.[] = ""
trim_slashes (String.◌∷◌ c s) = unless_last_slash c (trim_slashes s)

-- `NewClient`
unfoldable pub new_client : ClientConfig → Client
new_client cfg = record {
  base_url = trim_slashes cfg.base_url;
  timeout = if leb_ℤ cfg.timeout (pos 0) then pos (12 * 1_000_000_000) else cfg.timeout;
}

-- the address of every request
unfoldable pub info_url : Client → String
info_url client = client.base_url ++ "/info"

-- what `main` gives the client of the configuration
unfoldable pub client_config : Config → ClientConfig
client_config cfg = record { base_url = cfg.hyperliquid_base_url; timeout = cfg.http_timeout }

abbrev pub slashes : ℕ → String
slashes zero = ""
slashes (suc n) = String.◌∷◌ "/" (slashes n)

trim_slashes-slashes : (n : ℕ) → trim_slashes (slashes n) ≡ ""
unfolding trim_slashes
trim_slashes-slashes zero = refl
trim_slashes-slashes (suc n) = rw (trim_slashes-slashes n) refl

trim_slashes-append : (s : String) (n : ℕ) → trim_slashes (s ++ slashes n) ≡ trim_slashes s
unfolding trim_slashes
trim_slashes-append String.[] n = ap trim_slashes (append.nil (slashes n)) ∙ trim_slashes-slashes n
trim_slashes-append (String.◌∷◌ c s) n =
    ap trim_slashes (append.cons c s (slashes n))
    ∙ ap (unless_last_slash c) (trim_slashes-append s n)

-- The last character is not a `/`.
abbrev pub NoSlash : String → Type 0
NoSlash String.[] = Unit
NoSlash (String.◌∷◌ c String.[]) = is "/" c ≡ false
NoSlash (String.◌∷◌ c (String.◌∷◌ d s)) = NoSlash (String.◌∷◌ d s)

unless_last_slash-NoSlash : (c : Char) (s : String) → NoSlash s → NoSlash (unless_last_slash c s)
unless_last_slash-NoSlash c String.[] h = elim (Bool-cases (is "/" c)) [
  | inl slash ↦ rw slash tt
  | inr other ↦ rw other other
]
unless_last_slash-NoSlash c (String.◌∷◌ d s) h = h

trim_slashes-NoSlash : (s : String) → NoSlash (trim_slashes s)
unfolding trim_slashes
trim_slashes-NoSlash String.[] = tt
trim_slashes-NoSlash (String.◌∷◌ c s) =
    unless_last_slash-NoSlash c (trim_slashes s) (trim_slashes-NoSlash s)

timeout_positive : (t : ℤ) → pos 0 <ℤ (if leb_ℤ t (pos 0) then pos (12 * 1_000_000_000) else t)
timeout_positive (pos n) = ground arith
timeout_positive (negsuc n) = ground arith

-- Whatever the environment, the client waits a positive time for an answer, so it has a timeout, and its base
-- address has no slash at its end. How many slashes are written at the end of the setting makes no
-- difference to the address that it calls.
pub new_client_lem :
    (getenv : Environment) (timeout : ℤ) (url : String) (n : ℕ)
    → let client = new_client (client_config (load getenv)) in
      (pos 0 <ℤ client.timeout)
      × NoSlash client.base_url
      × (info_url (new_client (record { base_url = url ++ slashes n; timeout = timeout }))
          ≡ info_url (new_client (record { base_url = url; timeout = timeout })))
unfolding new_client info_url
new_client_lem getenv timeout url n =
    let cfg = client_config (load getenv) in
    (
      timeout_positive cfg.timeout,
      trim_slashes-NoSlash cfg.base_url,
      ap (λ base. base ++ "/info") (trim_slashes-append url n),
    )
