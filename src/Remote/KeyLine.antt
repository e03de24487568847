-- ===== src/Remote/KeyLine.antt =====
-- What `parseAuthorizedKey` and `materializePinnedKnownHosts` of internal/remote/remote.go have read when
-- they succeed.
use tool_public_ubo.Base.{
  ◌≡◌, refl, ap, Bool, true, false, ◌||◌, ◌⊎◌, inl, inr, List, [], ◌∷◌, ◌++◌, All, Bool-cases,
  arith,
}
use tool_public_ubo.Base.Int.{ℤ}
use tool_public_ubo.Base.Result.{Result, ok, err, err-ne-ok, ok-injective}
use tool_public_ubo.Remote.Pinned.{
  KeyError, key_fields, has_known_key_type_prefix, parse_authorized_key_line, first_key,
  parse_authorized_key, known_hosts_path, known_hosts_line, pin_result, pin_key, pin_text,
}
use tool_public_ubo.System.Disk.{Disk, IoError, write_file}
use tool_public_ubo.Text.Compare.{Bytes, codes, is_empty, has_prefix}
use tool_public_ubo.Text.Lines.{scan_lines}
use tool_public_ubo.Text.Space.{trim_space, fields}

-- A line that is blank or a comment.
abbrev pub Skipped : Bytes → Type 0
Skipped l = (is_empty (trim_space l) ≡ true) ⊎ (has_prefix (trim_space l) (codes "#") ≡ true)

-- The first line that is neither begins with the type of a key, of a known kind, and the key.
pub record IsFirstKey (key_type key_data : Bytes) (lines : List Bytes) : Type 0 where
  pub before : List Bytes
  pub line : Bytes
  pub after : List Bytes
  pub comment : List Bytes
  pub here : lines ≡ before ++ line ∷ after
  pub skipped : All Skipped before
  pub words : fields (trim_space line) ≡ key_type ∷ key_data ∷ comment
  pub known :
      (has_prefix key_type (codes "ssh-") ≡ true)
      ⊎ ((has_prefix key_type (codes "ecdsa-") ≡ true) ⊎ (has_prefix key_type (codes "sk-") ≡ true))

abbrev pub IsKeyOf : Bytes → Bytes → Bytes → Type 0
IsKeyOf key_type key_data text = IsFirstKey key_type key_data (scan_lines text).0

key_fields-words :
    (line : Bytes) (ws : List Bytes) {kt kd : Bytes}
    → key_fields line ws ≡ ok (kt, kd)
    → ((comment : List Bytes) × (ws ≡ kt ∷ kd ∷ comment)) × (has_known_key_type_prefix kt ≡ true)
unfolding key_fields
key_fields-words line [] h = err-ne-ok h
key_fields-words line (a ∷ []) h = err-ne-ok h
key_fields-words line (a ∷ b ∷ ws) h = elim (Bool-cases (has_known_key_type_prefix a)) [
  | inl good ↦
      (let same = ok-injective (rw good at h) in
        let ea = ap (λ (x : Bytes × Bytes). x.0) same in
        let eb = ap (λ (x : Bytes × Bytes). x.1) same in ((ws, rw (ea, eb) refl), rw (← ea) good))
  | inr bad ↦ err-ne-ok (rw bad at h)
]

found :
    (l : Bytes) (ls : List Bytes) {kt kd : Bytes}
    → key_fields (trim_space l) (fields (trim_space l)) ≡ ok (kt, kd)
    → IsFirstKey kt kd (l ∷ ls)
found l ls h =
    let ((comment, words), kind) = key_fields-words (trim_space l) (fields (trim_space l)) h in
    record {
      before = [];
      line = l;
      after = ls;
      comment = comment;
      here = refl;
      skipped = tt;
      words = words;
      known = unfold has_known_key_type_prefix in ground arith;
    }

first_key-IsFirstKey :
    (lines : List Bytes) {kt kd : Bytes} → first_key lines ≡ ok (kt, kd) → IsFirstKey kt kd lines
unfolding first_key
first_key-IsFirstKey [] h = err-ne-ok h
first_key-IsFirstKey (l ∷ ls) {kt = kt} {kd = kd} h =
    elim (Bool-cases (is_empty (trim_space l) || has_prefix (trim_space l) (codes "#"))) [
      | inl skip ↦
          (let rest = first_key-IsFirstKey ls (rw skip at h) in
            record {
              before = l ∷ rest.before;
              line = rest.line;
              after = rest.after;
              comment = rest.comment;
              here = ap (◌∷◌ l) rest.here;
              skipped = (ground arith, rest.skipped);
              words = rest.words;
              known = rest.known;
            })
      | inr stay ↦ found l ls {kt = kt} {kd = kd} (unfold parse_authorized_key_line in rw stay at h)
    ]

pub parse_authorized_key-IsKeyOf :
    (text : Bytes) {kt kd : Bytes} → parse_authorized_key text ≡ ok (kt, kd) → IsKeyOf kt kd text
unfolding parse_authorized_key
parse_authorized_key-IsKeyOf text h = first_key-IsFirstKey (scan_lines text).0 h

pub text_inv :
    (host : Bytes) (port : ℤ) (p : Bytes) (d : Disk) (r : Result IoError Bytes) {file : Bytes}
    {d' : Disk}
    → pin_text host port p d r ≡ (ok file, d')
    → (text : Bytes) × (r ≡ ok text)
      × (pin_key host port p d (parse_authorized_key text) ≡ (ok file, d'))
unfolding pin_text
text_inv host port p d (err e) h = ground arith
text_inv host port p d (ok text) h = (text, refl, h)

pub key_inv :
    (host : Bytes) (port : ℤ) (p : Bytes) (d : Disk) (r : Result KeyError (Bytes × Bytes))
    {file : Bytes} {d' : Disk}
    → pin_key host port p d r ≡ (ok file, d')
    → (key_type : Bytes) × (key_data : Bytes) × (r ≡ ok (key_type, key_data))
      × (pin_result
            (known_hosts_path p)
            (write_file d (known_hosts_path p) (known_hosts_line host port key_type key_data) 0o600)
          ≡ (ok file, d'))
key_inv host port p d (err e) h = absurd (unfold pin_key in ground arith)
key_inv host port p d (ok (kt, kd)) h = (kt, kd, refl, unfold pin_key in h)

pub result_inv :
    (path : Bytes) (w : Disk × Bool) {file : Bytes} {d' : Disk}
    → pin_result path w ≡ (ok file, d')
    → (file ≡ path) × (w ≡ (d', true))
unfolding pin_result
result_inv path (d, true) h = ground arith
result_inv path (d, false) h = ground arith
