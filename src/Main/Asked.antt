-- ===== src/Main/Asked.antt =====
-- What the prompts of `bootstrapConfig` of main.go give.
use mathlib.Core.Path.{subst}
use tool_public_ubo.Base.{◌≡◌, refl, ap, false, List, [], ◌∷◌, Bool-cases, inl, inr}
use tool_public_ubo.Base.Int.{ℤ, le_ℕ}
use tool_public_ubo.Base.Result.{Result, ok, err, ◌>>=◌, ◌>>◌, >>=-eq-ok, ok-injective, err-ne-ok}
use tool_public_ubo.Config.{Config, default}
use tool_public_ubo.Config.Validate.{
  validate, validate_host, validate_ssh, validate_port, validate_wire_guard, need_cidr,
  validate_tunnel_topology, validate_dropbear, validate_luks,
}
use tool_public_ubo.Main.Load.{
  prompt_required, prompt_line, bootstrap_config, read_port, ask_user, ask_port, ask_key, answered,
}
use tool_public_ubo.Main.Select.{scan_int}
use tool_public_ubo.Net.Cidr.{parse_cidr, contains}
use tool_public_ubo.Text.Compare.{Bytes, codes, is_empty}
use tool_public_ubo.Text.Decimal.{itoa}
use tool_public_ubo.Text.Space.{trim_space}

prompt_required-some :
    (lines : List Bytes) {v : Bytes} {rest : List Bytes}
    → prompt_required lines ≡ ok (v, rest)
    → is_empty v ≡ false
unfolding prompt_required
prompt_required-some [] h = err-ne-ok h
prompt_required-some (line ∷ lines) h = elim (Bool-cases (is_empty (trim_space line))) [
  | inl blank ↦ prompt_required-some lines (rw blank at h)
  | inr text ↦
      (let same = ok-injective (rw text at h) in
        rw (← ap (λ (p : Bytes × List Bytes). p.0) same) text)
]

prompt_line-some :
    (def : Bytes) (lines : List Bytes) {v : Bytes} {rest : List Bytes}
    → is_empty def ≡ false
    → prompt_line def lines ≡ ok (v, rest)
    → is_empty v ≡ false
unfolding prompt_line
prompt_line-some def [] there h = err-ne-ok h
prompt_line-some def (line ∷ lines) there h = elim (Bool-cases (is_empty (trim_space line))) [
  | inl blank ↦
      (let same = ok-injective (rw blank at h) in
        rw (← ap (λ (p : Bytes × List Bytes). p.0) same) there)
  | inr text ↦
      (let same = ok-injective (rw text at h) in
        rw (← ap (λ (p : Bytes × List Bytes). p.0) same) text)
]

then_ok {ℓ} : {E : Type ℓ} (m k : Result E (Unit {0})) → k ≡ ok tt → (m >> k) ≡ m
then_ok (ok tt) k h = h
then_ok (err e) k h = refl

rest_valid :
    (host user : Bytes) (port : ℤ) (key : Bytes)
    → (validate_wire_guard (answered host user port key)
        >> (validate_dropbear (answered host user port key)
            >> validate_luks (answered host user port key)))
      ≡ ok tt
unfolding is_empty validate_port le_ℕ validate_wire_guard need_cidr parse_cidr
    validate_tunnel_topology contains validate_dropbear validate_luks
rest_valid host user port key = refl

validate-answered :
    (host user : Bytes) (port : ℤ) (key : Bytes)
    → is_empty host ≡ false
    → is_empty user ≡ false
    → validate (answered host user port key) ≡ validate_port (codes "ssh.port") port
unfolding validate validate_host validate_ssh
validate-answered host user port key hh hu =
    rw (hh, hu) (then_ok _ _ (rest_valid host user port key))

-- The result of the prompts: a host and a user, the default but for the answers, valid but for the port.
pub IsAnswered : Config → Type 0
IsAnswered c =
    (is_empty c.host ≡ false)
    × (is_empty c.ssh.user ≡ false)
    × (c ≡ answered c.host c.ssh.user c.ssh.port c.ssh.key)
    × (validate c ≡ validate_port (codes "ssh.port") c.ssh.port)

ask_key-IsAnswered :
    (host user : Bytes) (port : ℤ) (lines : List Bytes) {c : Config}
    → is_empty host ≡ false
    → is_empty user ≡ false
    → ask_key host user port lines ≡ ok c
    → IsAnswered c
unfolding ask_key
ask_key-IsAnswered host user port lines {c = c} hh hu h =
    let (a, h1, k1) = >>=-eq-ok (prompt_line [] lines) (λ a. ok (answered host user port a.0)) h in
    let same : answered host user port a.0 ≡ c = ok-injective k1 in
    subst IsAnswered same
      (unfold IsAnswered in (hh, hu, refl, validate-answered host user port a.0 hh hu))

ask_port-IsAnswered :
    (host user : Bytes) (lines : List Bytes) {c : Config}
    → is_empty host ≡ false
    → is_empty user ≡ false
    → ask_port host user lines ≡ ok c
    → IsAnswered c
unfolding ask_port
ask_port-IsAnswered host user lines hh hu h =
    let (a, h1, k1) =
      >>=-eq-ok (prompt_line (itoa default.ssh.port) lines)
        (λ a. read_port a.0 (scan_int a.0) >>= λ port. ask_key host user port a.1) h in
    let (port, h2, k2) =
      >>=-eq-ok (read_port a.0 (scan_int a.0)) (λ port. ask_key host user port a.1) k1 in
    ask_key-IsAnswered host user port a.1 hh hu k2

ask_user-IsAnswered :
    (host : Bytes) (lines : List Bytes) {c : Config}
    → is_empty host ≡ false
    → ask_user host lines ≡ ok c
    → IsAnswered c
unfolding ask_user
ask_user-IsAnswered host lines hh h =
    let (a, h1, k1) =
      >>=-eq-ok (prompt_line default.ssh.user lines) (λ a. ask_port host a.0 a.1) h in
    ask_port-IsAnswered host a.0 a.1 hh
      (prompt_line-some default.ssh.user lines (unfold is_empty in refl) h1) k1

-- A configuration that the prompts give has a host and a user, is the default one but for the four
-- answers, and is valid just if the port of ssh is.
pub bootstrap_config-IsAnswered :
    (lines : List Bytes) {c : Config} → bootstrap_config lines ≡ ok c → IsAnswered c
unfolding bootstrap_config
bootstrap_config-IsAnswered lines h =
    let (a, h1, k1) = >>=-eq-ok (prompt_required lines) (λ a. ask_user a.0 a.1) h in
    ask_user-IsAnswered a.0 a.1 (prompt_required-some lines h1) k1
