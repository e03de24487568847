-- ===== src/Config/RoundTrip/Line.antt =====
-- One line of the file: an entry that `Marshal` prints is assigned, a header opens its section.
use tool_public_ubo.Base.{
  ℕ, ◌+◌, ◌≤◌, ◌≡◌, refl, sym, ap, ◌∙◌, false, [], ◌∷◌, ◌++◌, append_assoc, arith, some, All,
  All-map, All-append, Lacks,
}
use tool_public_ubo.Base.Result.{Result, ok, err, ◌>>=◌, map_err}
use tool_public_ubo.Config.Parse.{parse_key_value, parse_line, parse_lines, parse_section_header}
use tool_public_ubo.Config.Print.{entry}
use tool_public_ubo.Config.RoundTrip.Quoted.{HasEnds, Prints}
use tool_public_ubo.Config.Schema.{assign}
use tool_public_ubo.Config.Value.{Error, at_line, TomlValue}
use tool_public_ubo.Config.{Config}
use tool_public_ubo.Text.Compare.{
  Bytes, codes, cut, cut-append, is_empty, has_prefix, contains_any, last_or-cons, last_or-append,
  init-append,
}
use tool_public_ubo.Text.Lines.{split, split-append}
use tool_public_ubo.Text.Space.{
  trim_space, trim_space-ends, trim_space_blank, trim_space_blank_end, trim_space-All, IsGraphic,
}

-- The lines of `text`, from the one with index `i` on.
abbrev pub run : ℕ → Bytes → Config → Bytes → Result Error Config
run i section cfg text = parse_lines i section cfg (split b'\n' text)

pub run_line :
    (i : ℕ) (section : Bytes) (cfg : Config) (l rest : Bytes)
    → Lacks b'\n' l
    → run i section cfg (l ++ b'\n' ∷ rest) ≡ (
        map_err (at_line (i + 1)) (parse_line (trim_space l) section cfg) >>= λ (s, c).
        run (i + 1) s c rest)
run_line i section cfg l rest h =
    ap (parse_lines i section cfg) (split-append b'\n' l rest h) ∙ unfold parse_lines in refl

-- '_' and the small letters, and '`' between them
abbrev pub IsKeyByte : ℕ → Type 0
IsKeyByte c = (b'_' ≤ c) × (c ≤ b'z')

key-contains_any : (key : Bytes) → All IsKeyByte key → contains_any key (codes " \t\"[]#") ≡ false
unfolding contains_any
key-contains_any [] h = refl
key-contains_any (c ∷ key) h = ground (arith, key-contains_any key h.1)

trim_ends : (s : Bytes) → HasEnds s → trim_space s ≡ s
trim_ends [] h = absurd h
trim_ends (a ∷ s) h = trim_space-ends a s h.0 h.1

-- The text of a pair, without the newline.
abbrev pair : Bytes → Bytes → Bytes
pair key text = key ++ (codes " = " ++ text)

pair-HasEnds :
    (k : ℕ) (key text : Bytes) → IsKeyByte k → HasEnds text → HasEnds (pair (k ∷ key) text)
pair-HasEnds k key [] hk h = absurd h
pair-HasEnds k key (a ∷ s) hk h = (omega arith, rw last_or-cons h.1)

cut-pair :
    (key text : Bytes)
    → All IsKeyByte key
    → cut b'=' (pair key text) ≡ some (key ++ b' ' ∷ [], b' ' ∷ text)
cut-pair key text h = rw (← append_assoc key (b' ' ∷ []) (b'=' ∷ b' ' ∷ text)) (
    cut-append b'=' (key ++ b' ' ∷ []) (b' ' ∷ text)
      (All-append _ key (b' ' ∷ []) (All-map (λ c k. omega arith) key h) (omega arith)))

pair_key_value :
    (k : ℕ) (key text : Bytes) {v : TomlValue}
    → All IsKeyByte (k ∷ key)
    → Prints text v
    → parse_key_value (pair (k ∷ key) text) ≡ ok (k ∷ key, v)
pair_key_value k key text h p =
    let graphic = All-map {Q = IsGraphic} (λ c w. omega arith) (k ∷ key) h in
    unfold parse_key_value in
    rw (cut-pair (k ∷ key) text h) (
      rw
        (
          trim_space_blank_end (k ∷ key) graphic,
          key-contains_any (k ∷ key) h,
          trim_space_blank text,
          trim_ends text p.ends,
          p.reads,
        )
        (unfold is_empty in refl))

line_of_pair :
    (k : ℕ) (s section : Bytes) (cfg : Config)
    → IsKeyByte k
    → parse_line (k ∷ s) section cfg
      ≡ (parse_key_value (k ∷ s) >>= λ (key, v). assign cfg section key v >>= λ c. ok (section, c))
unfolding parse_line is_empty has_prefix
line_of_pair k s section cfg h = ground arith

pub pair_line :
    (k : ℕ) (key text : Bytes) {v : TomlValue} (section : Bytes) (cfg : Config)
    → All IsKeyByte (k ∷ key)
    → Prints text v
    → parse_line (trim_space (pair (k ∷ key) text)) section cfg
      ≡ (assign cfg section (k ∷ key) v >>= λ c. ok (section, c))
pair_line k key text section cfg h p =
    rw (trim_ends (pair (k ∷ key) text) (pair-HasEnds k key text h.0 p.ends))
      (line_of_pair k _ section cfg h.0 ∙ rw (pair_key_value k key text h p))

pair-Lacks : (key text : Bytes) → All IsKeyByte key → Lacks b'\n' text → Lacks b'\n' (pair key text)
pair-Lacks key text h one =
    All-append _ key (codes " = " ++ text) (All-map (λ c k. omega arith) key h)
      (omega arith, (omega arith, (omega arith, one)))

entry-pair : (key text rest : Bytes) → entry key text ++ rest ≡ pair key text ++ b'\n' ∷ rest
unfolding entry
entry-pair key text rest = simp append_assoc

-- An entry is assigned, and the loop goes on with what follows.
pub run-entry :
    (i k : ℕ) (key text : Bytes) {v : TomlValue} (section : Bytes) (cfg : Config) (rest : Bytes)
    → All IsKeyByte (k ∷ key)
    → Prints text v
    → run i section cfg (entry (k ∷ key) text ++ rest) ≡ (
        map_err (at_line (i + 1)) (assign cfg section (k ∷ key) v) >>= λ c.
        run (i + 1) section c rest)
run-entry i k key text {v} section cfg rest h p =
    ap (run i section cfg) (entry-pair (k ∷ key) text rest)
    ∙ run_line i section cfg (pair (k ∷ key) text) rest (pair-Lacks (k ∷ key) text h p.one_line)
    ∙ rw (pair_line k key text section cfg h p) (bind_section (assign cfg section (k ∷ key) v))
  where
    bind_section :
        (m : Result Error Config)
        → (map_err (at_line (i + 1)) (m >>= λ c. ok (section, c)) >>= λ (s, c).
            run (i + 1) s c rest)
          ≡ (map_err (at_line (i + 1)) m >>= λ c. run (i + 1) section c rest)
    bind_section (ok c) = refl
    bind_section (err e) = refl

-- A header behind an empty line, as `Marshal` prints it.
abbrev pub header : Bytes → Bytes
header name = b'\n' ∷ b'[' ∷ (name ++ codes "]\n")

key-brackets : (key : Bytes) → All IsKeyByte key → contains_any key (codes "[]") ≡ false
unfolding contains_any
key-brackets [] h = refl
key-brackets (c ∷ key) h = ground (arith, key-brackets key h.1)

section_name :
    (k : ℕ) (name : Bytes)
    → All IsKeyByte (k ∷ name)
    → parse_section_header (b'[' ∷ (k ∷ name ++ b']' ∷ [])) ≡ ok (k ∷ name)
section_name k name h =
    let graphic = All-map {Q = IsGraphic} (λ c w. omega arith) (k ∷ name) h in
    unfold parse_section_header in
    rw (last_or-append b'[' (k ∷ name) b']') (
      rw (init-append (k ∷ name) b']', trim_space-All (k ∷ name) graphic, key-brackets (k ∷ name) h)
        (unfold is_empty in refl))

header_line :
    (k : ℕ) (name section : Bytes) (cfg : Config)
    → All IsKeyByte (k ∷ name)
    → parse_line (trim_space (b'[' ∷ (k ∷ name ++ b']' ∷ []))) section cfg ≡ ok (k ∷ name, cfg)
header_line k name section cfg h =
    rw
      (trim_space-ends b'[' (k ∷ name ++ b']' ∷ []) (omega arith)
        (rw (last_or-append b'[' (k ∷ name) b']') (omega arith)))
      (unfold parse_line is_empty has_prefix in rw (section_name k name h))

-- The empty line is skipped, and the header opens its section.
pub run-header :
    (i k : ℕ) (name section : Bytes) (cfg : Config) (rest : Bytes)
    → All IsKeyByte (k ∷ name)
    → run i section cfg (header (k ∷ name) ++ rest) ≡ run (i + 1 + 1) (k ∷ name) cfg rest
run-header i k name section cfg rest h =
    run_line i section cfg [] (b'[' ∷ (k ∷ name ++ codes "]\n") ++ rest) tt
    ∙ unfold trim_space parse_line is_empty in
      (ap (run (i + 1) section cfg) (
          ap (◌∷◌ b'[') (
            append_assoc (k ∷ name) (codes "]\n") rest
            ∙ sym (append_assoc (k ∷ name) (b']' ∷ []) (b'\n' ∷ rest))))
        ∙ run_line (i + 1) section cfg (b'[' ∷ (k ∷ name ++ b']' ∷ [])) rest (
          omega arith,
          All-append _ (k ∷ name) (b']' ∷ []) (All-map (λ c w. omega arith) (k ∷ name) h)
              (omega arith, tt),
        ))
      ∙ rw (header_line k name section cfg h)

abbrev pub IsKey : Bytes → Type 0
IsKey [] = ⊥
IsKey (k ∷ key) = All IsKeyByte (k ∷ key)

-- The two steps of `Marshal`'s text, for a key or a section by its whole name.
pub step-entry :
    (i : ℕ) (key : Bytes) {text : Bytes} {v : TomlValue} (section : Bytes) (cfg cfg' : Config)
    (rest : Bytes)
    → IsKey key
    → Prints text v
    → assign cfg section key v ≡ ok cfg'
    → run i section cfg (entry key text ++ rest) ≡ run (i + 1) section cfg' rest
step-entry i [] section cfg cfg' rest h p e = absurd h
step-entry i (k ∷ key) {text} section cfg cfg' rest h p e =
    run-entry i k key text section cfg rest h p ∙ rw e

pub step-header :
    (i : ℕ) (name section : Bytes) (cfg : Config) (rest : Bytes)
    → IsKey name
    → run i section cfg (header name ++ rest) ≡ run (i + 1 + 1) name cfg rest
step-header i [] section cfg rest h = absurd h
step-header i (k ∷ name) section cfg rest h = run-header i k name section cfg rest h
