-- ===== src/CredentialPool/MinCooldown.antt =====
-- `GetMinCooldown` of server/internal/service/credential_router.go. `lower` is `strings.ToLower`.
pub mod Least
use auto_dev_os.Base.{
  ℕ, zero, suc, ◌-◌, String, Bool, true, false, ◌&&◌, Option, none, some, List, [], ◌∷◌, ltb, ◌==◌,
  if◌then◌else◌,
}
use auto_dev_os.CredentialPool.{Pool, Stored, get_model_cooldown}

-- The columns of a provider's credential that the loop reads.
pub record ListedCredential : Type 0 where
  pub ident : String
  pub provider : String
  pub status : String
  pub cooldown_until : Option ℕ

-- The two branches that skip a credential.
unfoldable pub is_counted : (String → String) → String → ListedCredential → Bool
is_counted lower provider cred =
    if lower cred.provider == lower provider
    then if cred.status == "disabled" then false else true
    else false

-- The cooldown of the credential itself, 0 if there is none.
unfoldable pub own_until : ℕ → ListedCredential → ℕ
own_until now cred = elim cred.cooldown_until [
  | none ↦ 0
  | some until ↦ if cred.status == "rate_limited" && ltb now until then until else 0
]

-- With the cooldown of the model.
unfoldable pub until_of : Stored → ℕ → String → ListedCredential → Pool → Pool × ℕ
until_of stored now model cred p =
    if model == ""
    then (p, own_until now cred)
    else let (p', (until, ok)) = get_model_cooldown stored now cred.ident model p in
      (
        p',
        if ok && (ltb now until && ltb (own_until now cred) until)
            then until
            else own_until now cred,
      )

-- `cd`
unfoldable pub wait_of : ℕ → ℕ → ℕ
wait_of now until = if ltb now until then until - now else 0

-- `minCooldown` and `minCredID`; `none` is the -1 of the start.
unfoldable pub shorter : ℕ → String → Option (ℕ × String) → Option (ℕ × String)
shorter wait ident none = some (wait, ident)
shorter wait ident (some (least, least_id)) =
    if ltb wait least then some (wait, ident) else some (least, least_id)

-- The loop.
unfoldable pub scan :
    Stored
    → (String → String)
    → ℕ
    → (provider model : String) → List ListedCredential
    → Option (ℕ × String)
    → Pool
    → Pool × Option (ℕ × String)
scan stored lower now provider model [] least p = (p, least)
scan stored lower now provider model (cred ∷ rest) least p =
    if is_counted lower provider cred
    then (let (p', until) = until_of stored now model cred p in
        scan stored lower now provider model rest (shorter (wait_of now until) cred.ident least) p')
    else scan stored lower now provider model rest least p

unfoldable pub or_zero : Option (ℕ × String) → ℕ × String
or_zero none = (0, "")
or_zero (some answer) = answer

-- `GetMinCooldown`; a list that is `none` is a failure of the database, and so is an answer.
unfoldable pub get_min_cooldown :
    Stored
    → (String → String)
    → ℕ
    → (provider model : String) → Option (List ListedCredential)
    → Pool
    → Pool × Option (ℕ × String)
get_min_cooldown stored lower now provider model none p = (p, none)
get_min_cooldown stored lower now provider model (some creds) p =
    let (p', least) = scan stored lower now provider model creds none p in
    (p', some (or_zero least))
