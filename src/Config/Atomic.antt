-- ===== src/Config/Atomic.antt =====
-- `Save` changes the file at its path as a whole or not at all.
use tool_public_ubo.Base.{
  ℕ, ◌≡◌, refl, sym, ap, ◌∙◌, Bool, true, false, Option, none, some, arith, Bool-cases, inl, inr,
  if◌then◌else◌,
}
use tool_public_ubo.Base.Result.{Result, ok, err}
use tool_public_ubo.Config.Files.{save, SaveError, Faults, created, chmod, rename, fill_temp, load}
use tool_public_ubo.Config.Print.{marshal}
use tool_public_ubo.Config.RoundTrip.Whole.{IsPrintable, parse-marshal}
use tool_public_ubo.Config.{Config, default}
use tool_public_ubo.System.Disk.{
  Disk, File, write_file, remove, files-remove, unreadable-write_file, unreadable-remove,
  read_file-there,
}
use tool_public_ubo.Text.Compare.{Bytes, equal, equal_iff, equal_refl}

abbrev pub saved : Config → File
saved c = record { content = marshal c; mode = 0o644 }

-- The file at `q`, before and behind the call: the new file at the path on success, and on an
-- error what was there.
abbrev pub Outcome :
    Config → Bytes → Result SaveError (Unit {0}) → Bytes → Option File → Option File → Type 0
Outcome c path (ok _) q old new = new ≡ (if equal path q then some (saved c) else old)
Outcome c path (err _) q old new = new ≡ old

-- The name of the temporary file is new, it is not the path, and the file can be removed.
abbrev pub IsFresh : Disk → Bytes → Option Bytes → Type 0
IsFresh d path none = Unit
IsFresh d path (some tmp) = (d.files tmp ≡ none) × (equal tmp path ≡ false) × (d.fixed tmp ≡ false)

-- The disks differ at most at the path.
abbrev OnlyAt : Bytes → Disk → Disk → Type 0
OnlyAt tmp d d₁ = (p : Bytes) → equal tmp p ≡ false → d₁.files p ≡ d.files p

-- Removing the temporary file undoes what was done to it.
undo :
    (tmp : Bytes) (d d₁ : Disk) (q : Bytes)
    → OnlyAt tmp d d₁
    → d₁.fixed tmp ≡ false
    → d.files tmp ≡ none
    → (remove d₁ tmp).0.files q ≡ d.files q
undo tmp d d₁ q only removable fresh =
    files-remove d₁ tmp q removable ∙ elim (Bool-cases (equal tmp q)) [
      | inl same ↦ rw same (sym fresh ∙ ap d.files ((equal_iff tmp q).0 same))
      | inr other ↦ rw other (only q other)
    ]

renamed :
    (tmp path : Bytes) (c : Config) (d d₁ : Disk) (q : Bytes) (m : ℕ)
    → OnlyAt tmp d d₁
    → d₁.fixed tmp ≡ false
    → d.files tmp ≡ none
    → equal tmp path ≡ false
    → d₁.files tmp ≡ some (record { content = marshal c; mode = m })
    → (remove (rename (chmod d₁ tmp 0o644) tmp path) tmp).0.files q
      ≡ (if equal path q then some (saved c) else d.files q)
renamed tmp path c d d₁ q m only removable fresh apart full =
    files-remove (rename (chmod d₁ tmp 0o644) tmp path) tmp q removable
    ∙ elim (Bool-cases (equal tmp q)) [
      | inl same ↦
          let e = (equal_iff tmp q).0 same in
          ground
            (arith, equal_iff path q, equal_iff tmp path, same, fresh, ap d.files e, equal_refl tmp)
      | inr other ↦ ground (arith, other, only q other, full, equal_refl tmp, apart)
    ]

fill-Outcome :
    (tmp path : Bytes) (faults : Faults) (c : Config) (d d₁ : Disk) (b : Bool) (q : Bytes) (m : ℕ)
    → OnlyAt tmp d d₁
    → d₁.fixed tmp ≡ false
    → d.files tmp ≡ none
    → equal tmp path ≡ false
    → (b ≡ true → d₁.files tmp ≡ some (record { content = marshal c; mode = m }))
    → let r = fill_temp faults (marshal c) tmp path (d₁, b) in
      Outcome c path r.1 q (d.files q) ((remove r.0 tmp).0.files q)
unfolding fill_temp
fill-Outcome tmp path faults c d d₁ false q m only removable fresh apart full =
    undo tmp d d₁ q only removable fresh
fill-Outcome tmp path faults c d d₁ true q m only removable fresh apart full =
    elim (Bool-cases faults.chmod) [
      | inl e ↦ rw e (undo tmp d d₁ q only removable fresh)
      | inr e ↦ elim (Bool-cases faults.close) [
        | inl e' ↦ rw (e, e') (undo tmp d _ q only' removable fresh)
        | inr e' ↦ elim (Bool-cases faults.rename) [
          | inl e'' ↦ rw (e, e', e'') (undo tmp d _ q only' removable fresh)
          | inr e'' ↦
              rw (e, e', e'') (renamed tmp path c d d₁ q m only removable fresh apart (full refl))
        ]
      ]
    ]
  where
    only' : OnlyAt tmp d (chmod d₁ tmp 0o644)
    only' p h = rw h (only p h)

-- `Save` is atomic: if it succeeds, the path holds the whole text with mode 0644 and no other file
-- has changed; if the temporary file cannot be created, written, given its mode, closed or renamed,
-- no file has changed. The name of the temporary file has to be new, other than the path, and open
-- to removal.
pub save-Outcome :
    (tmp : Option Bytes) (faults : Faults) (c : Config) (path : Bytes) (d : Disk) (q : Bytes)
    → IsFresh d path tmp
    → Outcome c path
        (save tmp faults c path d).1
        q
        (d.files q)
        ((save tmp faults c path d).0.files q)
unfolding save
save-Outcome none faults c path d q h = refl
save-Outcome (some tmp) faults c path d q (fresh, apart, removable) =
    fill-Outcome tmp path faults c d (write_file (created d tmp) tmp (marshal c) 0o600).0
      (write_file (created d tmp) tmp (marshal c) 0o600).1 q 0o600 only kept fresh apart full
  where
    only : OnlyAt tmp d (write_file (created d tmp) tmp (marshal c) 0o600).0
    only p h = unfold write_file in ground (arith, h)

    kept : (write_file (created d tmp) tmp (marshal c) 0o600).0.fixed tmp ≡ false
    kept = unfold write_file in ground arith

    full :
        (write_file (created d tmp) tmp (marshal c) 0o600).1 ≡ true
        → (write_file (created d tmp) tmp (marshal c) 0o600).0.files tmp
          ≡ some (record { content = marshal c; mode = 0o600 })
    full = unfold write_file in ground (arith, equal_refl tmp)

unreadable-fill_temp :
    (faults : Faults) (text tmp path : Bytes) (d : Disk) (b : Bool)
    → (fill_temp faults text tmp path (d, b)).0.unreadable ≡ d.unreadable
unfolding fill_temp
unreadable-fill_temp faults text tmp path d false = refl
unreadable-fill_temp faults text tmp path d true = ground arith

unreadable-save :
    (tmp : Option Bytes) (faults : Faults) (c : Config) (path : Bytes) (d : Disk)
    → (save tmp faults c path d).0.unreadable ≡ d.unreadable
unfolding save
unreadable-save none faults c path d = refl
unreadable-save (some tmp) faults c path d =
    unreadable-remove _ tmp
    ∙ unreadable-fill_temp faults (marshal c) tmp path _ _
    ∙ unreadable-write_file (created d tmp) tmp (marshal c) 0o600

-- What `Save` has saved, `Load` loads: the same configuration, if its strings hold no newline, its
-- ports are values of an `int`, and the path can be read.
pub load-save :
    (tmp : Option Bytes) (faults : Faults) (c : Config) (path : Bytes) (d : Disk)
    → IsFresh d path tmp
    → IsPrintable c
    → d.unreadable path ≡ false
    → (save tmp faults c path d).1 ≡ ok tt
    → load path (save tmp faults c path d).0 ≡ ok c
unfolding load
load-save tmp faults c path d fresh w readable h =
    rw
      (read_file-there (save tmp faults c path d).0 path
        (rw (h, equal_refl path) at (save-Outcome tmp faults c path d path fresh))
        (rw (unreadable-save tmp faults c path d) readable))
      (rw (parse-marshal c default w))
