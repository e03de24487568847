-- ===== src/Remote/HostKey.antt =====
-- What `Connect` establishes about the host key, and what `Close` undoes.
use tool_public_ubo.Base.{
  ℕ, ◌≡◌, refl, ap, ◌∙◌, true, false, none, some, [], ◌∷◌, ◌++◌, arith, Bool-cases, inl, inr, ◌⊎◌,
  if◌then◌else◌,
}
use tool_public_ubo.Base.Int.{ℤ, le_ℕ, eq_ℕ}
use tool_public_ubo.Base.Result.{Result, ok, err}
use tool_public_ubo.Remote.Client.{ConnectOptions, Client}
use tool_public_ubo.Remote.Connect.{
  connect, connect_valid, pin_client, apply_host_key_mode, validate_connect_options, new_client,
  close, ConnectError,
}
use tool_public_ubo.Remote.Pinned.{
  known_hosts_path, known_hosts_line, known_hosts_hostname, materialize_pinned_known_hosts,
  PinError,
}
use tool_public_ubo.Remote.KeyLine.{
  IsKeyOf, parse_authorized_key-IsKeyOf, text_inv, key_inv, result_inv,
}
use tool_public_ubo.System.Disk.{remove, remove-write_file, Disk, read_file, write_file}
use tool_public_ubo.Text.Compare.{Bytes, codes, is_empty}
use tool_public_ubo.Text.Decimal.{itoa}

-- The options that `validateConnectOptions` accepts.
pub record IsValid (o : ConnectOptions) : Type 0 where
  pub host : is_empty o.host ≡ false
  pub user : is_empty o.user ≡ false
  pub port : le_ℕ o.port 0 ≡ false
  pub one_mode : (is_empty o.known_hosts_path ≡ true) ⊎ (is_empty o.pinned_key_path ≡ true)

validate-IsValid : (o : ConnectOptions) → validate_connect_options (some o) ≡ ok tt → IsValid o
unfolding validate_connect_options
validate-IsValid o h = ground arith

IsValid-validate : (o : ConnectOptions) → IsValid o → validate_connect_options (some o) ≡ ok tt
unfolding validate_connect_options
IsValid-validate o v = ground arith

-- The client that options ask for with a known_hosts file, a mode, and a file for `Close` to remove: the
-- other fields are those of the options, and there is no sudo password.
abbrev pub client_for : ConnectOptions → Bytes → Bytes → Bytes → Client
client_for o file mode temporary = record {
  host = o.host;
  port = o.port;
  user = o.user;
  key_path = o.key_path;
  sudo = o.sudo;
  sudo_password = [];
  proxy_jump = o.proxy_jump;
  known_hosts_file = file;
  strict_mode = mode;
  temp_known_hosts = temporary;
}

-- A line of known_hosts as sshd(8) describes it: the host, in brackets with its port if that is not 22, the
-- type of the key and the key.
abbrev pub trusted_line : Bytes → ℤ → Bytes → Bytes → Bytes
trusted_line host port key_type key_data =
    (if eq_ℕ port 22 then host else codes "[" ++ (host ++ (codes "]:" ++ itoa port)))
    ++ (codes " " ++ (key_type ++ (codes " " ++ (key_data ++ codes "\n"))))

-- Strict mode: the client trusts the one key of the pinned file, which is written to a file of its
-- own for ssh and for `Close`.
pub record IsPinned (o : ConnectOptions) (d : Disk) (c : Client) (d' : Disk) : Type 0 where
  pub only_mode : is_empty o.known_hosts_path ≡ true
  pub text : Bytes
  pub key_type : Bytes
  pub key_data : Bytes
  pub pinned_text : read_file d o.pinned_key_path ≡ ok text
  pub pinned_key : IsKeyOf key_type key_data text
  pub client :
      c
      ≡ client_for o
          (o.pinned_key_path ++ codes ".known_hosts")
          (codes "yes")
          (o.pinned_key_path ++ codes ".known_hosts")
  pub disk :
      write_file d
        (o.pinned_key_path ++ codes ".known_hosts")
        (trusted_line o.host o.port key_type key_data)
        0o600
      ≡ (d', true)

-- Trust on first use: ssh keeps the caller's file, and the disk is left alone.
pub record IsTofu (o : ConnectOptions) (d : Disk) (c : Client) (d' : Disk) : Type 0 where
  pub only_mode : is_empty o.pinned_key_path ≡ true
  pub path : is_empty o.known_hosts_path ≡ false
  pub client : c ≡ client_for o o.known_hosts_path (codes "accept-new") []
  pub disk : d' ≡ d

client_inv :
    (c₀ : Client) (m : Result PinError Bytes × Disk) {c : Client} {d' : Disk}
    → pin_client c₀ m ≡ (ok c, d')
    → (file : Bytes) × (m ≡ (ok file, d'))
      × (c ≡ record c₀ {
        known_hosts_file = file;
        temp_known_hosts = file;
        strict_mode = codes "yes";
      })
client_inv c₀ (err e, d) h = absurd (unfold pin_client in ground arith)
client_inv c₀ (ok file, d) h =
    (file, unfold pin_client in ground arith, unfold pin_client in ground arith)

valid_inv :
    (o : ConnectOptions) (r : Result ConnectError (Unit {0})) (d : Disk) {c : Client} {d' : Disk}
    → connect_valid (some o) r d ≡ (ok c, d')
    → (r ≡ ok tt) × (apply_host_key_mode (new_client o) o d ≡ (ok c, d'))
unfolding connect_valid
valid_inv o (err e) d h = ground arith
valid_inv o (ok _) d h = (refl, h)

IsPinned-inv :
    (o : ConnectOptions) (d : Disk) {c : Client} {d' : Disk}
    → is_empty o.known_hosts_path ≡ true
    → pin_client (new_client o) (materialize_pinned_known_hosts o.host o.port o.pinned_key_path d)
      ≡ (ok c, d')
    → IsPinned o d c d'
unfolding materialize_pinned_known_hosts
IsPinned-inv o d k h =
    let (file, m, made) = client_inv (new_client o) _ h in
    let (text, r, m') = text_inv o.host o.port o.pinned_key_path d _ m in
    let (kt, kd, parsed, m'') = key_inv o.host o.port o.pinned_key_path d _ m' in
    let (f, w) = result_inv _ _ m'' in
    record {
      only_mode = k;
      text = text;
      key_type = kt;
      key_data = kd;
      pinned_text = r;
      pinned_key = parse_authorized_key-IsKeyOf text parsed;
      client = rw f at made;
      disk = unfold known_hosts_line in unfold known_hosts_hostname in w;
    }

IsTofu-inv :
    (o : ConnectOptions) (d : Disk) {c : Client} {d' : Disk}
    → is_empty o.pinned_key_path ≡ true
    → apply_host_key_mode (new_client o) o d ≡ (ok c, d')
    → IsTofu o d c d'
unfolding apply_host_key_mode
IsTofu-inv o d e h = record {
  only_mode = e;
  path = ground arith;
  client = ground arith;
  disk = ground arith;
}

mode_inv :
    (o : ConnectOptions) (d : Disk) {c : Client} {d' : Disk}
    → IsValid o
    → apply_host_key_mode (new_client o) o d ≡ (ok c, d')
    → IsPinned o d c d' ⊎ IsTofu o d c d'
mode_inv o d v h = elim (Bool-cases (is_empty o.pinned_key_path)) [
  | inl e ↦ inr (IsTofu-inv o d e h)
  | inr e ↦ inl (IsPinned-inv o d (ground arith) (unfold apply_host_key_mode in rw e at h))
]

-- A client is made only with the host key's file in the mode that the options choose. Either the
-- pinned file was read, its first line that is not blank and no comment begins with the type of a key and
-- the key, the one line of known_hosts for the host, the port and that
-- key was written beside it, and ssh is told to use that file and to be strict; or no key is pinned, the
-- disk is untouched, and ssh is told to accept and keep a new key in the caller's file. The options passed
-- every check; the host, port, user, key, sudo and jump host of the client are theirs.
pub connect-trust :
    (o : ConnectOptions) (d : Disk) (c : Client) (d' : Disk)
    → connect (some o) d ≡ (ok c, d')
    → IsValid o × (IsPinned o d c d' ⊎ IsTofu o d c d')
unfolding connect
connect-trust o d c d' h =
    let (valid, applied) = valid_inv o (validate_connect_options (some o)) d h in
    let v = validate-IsValid o valid in (v, mode_inv o d v applied)

-- After `Close` no temporary file is left to the client, so that a second `Close` does nothing and
-- reports nothing.
pub close_again :
    (c : Client) (d : Disk) → close (close c d).0.0 (close c d).0.1 ≡ ((close c d).0, ok tt)
unfolding close is_empty
close_again c d = ground arith

close_nothing : (c : Client) (d : Disk) → c.temp_known_hosts ≡ [] → (close c d).0.1 ≡ d
unfolding close is_empty
close_nothing c d h = ground arith

close_file :
    (c : Client) (d : Disk) (p : Bytes)
    → c.temp_known_hosts ≡ p
    → is_empty p ≡ false
    → (close c d).0.1 ≡ (remove d p).0
unfolding close
close_file c d p h k = ground arith

append_not_empty : (s : Bytes) (a : ℕ) (t : Bytes) → is_empty (s ++ a ∷ t) ≡ false
unfolding is_empty
append_not_empty [] a t = refl
append_not_empty (c ∷ s) a t = refl

-- `Connect` and then `Close` leave every file as it was, if no file stood at the path of the
-- known_hosts copy and that path can be removed.
pub close-connect :
    (o : ConnectOptions) (d : Disk) (c : Client) (d' : Disk)
    → connect (some o) d ≡ (ok c, d')
    → d.files (known_hosts_path o.pinned_key_path) ≡ none
    → d.fixed (known_hosts_path o.pinned_key_path) ≡ false
    → (q : Bytes) → (close c d').0.1.files q ≡ d.files q
close-connect o d c d' h absent removable q = elim (connect-trust o d c d' h).1 [
  | inl p ↦
      ap (λ (e : Disk). e.files q)
        (close_file c d' (known_hosts_path o.pinned_key_path)
          (ap (λ (x : Client). x.temp_known_hosts) p.client)
          (append_not_empty o.pinned_key_path b'.' (codes "known_hosts")))
      ∙ remove-write_file d _ _ 0o600 q p.disk absent removable
  | inr t ↦
      ap (λ (e : Disk). e.files q)
        (close_nothing c d' (ap (λ (x : Client). x.temp_known_hosts) t.client) ∙ t.disk)
]
