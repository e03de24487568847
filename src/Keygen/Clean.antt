-- ===== src/Keygen/Clean.antt =====
-- What `GenerateWireGuardKeypair` of internal/keygen/keygen.go leaves behind when it fails.
use tool_public_ubo.Base.{
  ℕ, true, false, not, ◌≡◌, ◌++◌, refl, ap, ◌∙◌, arith, Option, none, some, inl, inr, Bool-cases,
  if◌then◌else◌,
}
use tool_public_ubo.Base.Result.{Result, ok, err}
use tool_public_ubo.Keygen.{
  KeygenError, not_derived, private_not_written, public_not_written, write_public, write_private,
  generate_wg_private_key, clamp, generate_wire_guard_keypair,
}
use tool_public_ubo.System.Disk.{Disk, SameBut, write_file, written, remove, files-remove}
use tool_public_ubo.Text.Compare.{Bytes, codes, equal, equal_refl}
use tool_public_ubo.Text.FilePath.{join}

-- What the disk holds for each result: after a failure behind the first file, no private key is left
-- at its path. A write of the first file that fails leaves there what the system left.
pub Left : Disk → Bytes → Bytes → Result KeygenError (Bytes × Bytes) → Disk → Type 0
Left d priv pub_path (ok (private_key, public_key)) d' =
    (d'.files priv ≡ some (written (d.files priv) (private_key ++ codes "\n") 0o600))
    × (d'.files pub_path ≡ some (written (d.files pub_path) (public_key ++ codes "\n") 0o644))
Left d priv pub_path (err private_not_written) d' =
    (d.unwritable priv ≡ true) × (d'.files priv ≡ d.leftover priv) × SameBut priv d d'
Left d priv pub_path (err not_derived) d' = d'.files priv ≡ none
Left d priv pub_path (err public_not_written) d' = d'.files priv ≡ none
Left d priv pub_path (err _) d' = (q : Bytes) → d'.files q ≡ d.files q

removed : (d : Disk) (p : Bytes) → d.fixed p ≡ false → (remove d p).0.files p ≡ none
removed d p h = files-remove d p p h ∙ rw (equal_refl p) refl

written_at :
    (d : Disk) (p t : Bytes) (m : ℕ) (q : Bytes)
    → d.unwritable p ≡ false
    → (write_file d p t m).0.files q
      ≡ (if equal p q then some (written (d.files p) t m) else d.files q)
unfolding write_file
written_at d p t m q h = rw h refl

unwritten :
    (d : Disk) (p t : Bytes) (m : ℕ)
    → d.unwritable p ≡ true
    → ((write_file d p t m).0.files p ≡ d.leftover p) × SameBut p d (write_file d p t m).0
unfolding write_file SameBut
unwritten d p t m bad = rw bad (rw (equal_refl p) refl, λ q apart. rw apart refl)

fixed-write_file :
    (d : Disk) (p t : Bytes) (m : ℕ) (q : Bytes) → (write_file d p t m).0.fixed q ≡ d.fixed q
unfolding write_file
fixed-write_file d p t m q = ground arith

unwritable-write_file :
    (d : Disk) (p t : Bytes) (m : ℕ) (q : Bytes)
    → (write_file d p t m).0.unwritable q ≡ d.unwritable q
unfolding write_file
unwritable-write_file d p t m q = ground arith

write_file-flag : (d : Disk) (p t : Bytes) (m : ℕ) → (write_file d p t m).1 ≡ not (d.unwritable p)
unfolding write_file
write_file-flag d p t m = ground arith

write_public-Left :
    (encode : Bytes → Bytes) (derive : Bytes → Option Bytes) (d : Disk) (priv pub_path key : Bytes)
    (o : Option Bytes)
    → equal priv pub_path ≡ false
    → equal pub_path priv ≡ false
    → d.unwritable priv ≡ false
    → d.fixed priv ≡ false
    → Left d priv pub_path
        (write_public encode derive priv pub_path key o
          (write_file d priv (key ++ codes "\n") 0o600).0).1
        (write_public encode derive priv pub_path key o
          (write_file d priv (key ++ codes "\n") 0o600).0).0
unfolding write_public Left
write_public-Left encode derive d priv pub_path key none apart apart' w k =
    removed (write_file d priv (key ++ codes "\n") 0o600).0 priv
      (fixed-write_file d priv _ _ priv ∙ k)
write_public-Left encode derive d priv pub_path key (some public_key) apart apart' w k =
    let d₁ = (write_file d priv (key ++ codes "\n") 0o600).0 in
    let there : d₁.files priv ≡ some (written (d.files priv) (key ++ codes "\n") 0o600) =
      written_at d priv _ _ priv w ∙ rw (equal_refl priv) refl in
    elim (Bool-cases (d₁.unwritable pub_path)) [
      | inl bad ↦
          rw (write_file-flag d₁ pub_path (public_key ++ codes "\n") 0o644, bad)
            (removed (write_file d₁ pub_path (public_key ++ codes "\n") 0o644).0 priv
              (fixed-write_file d₁ pub_path _ _ priv ∙ fixed-write_file d priv _ _ priv ∙ k))
      | inr good ↦
          rw (write_file-flag d₁ pub_path (public_key ++ codes "\n") 0o644, good)
            (
              written_at d₁ pub_path _ _ priv good ∙ rw apart' there,
              written_at d₁ pub_path _ _ pub_path good
                  ∙ rw (equal_refl pub_path) (
                      ap (λ f. some (written f (public_key ++ codes "\n") 0o644))
                        (written_at d priv _ _ pub_path w ∙ rw apart refl)),
            )
    ]

generated-Left :
    (encode : Bytes → Bytes) (derive : Bytes → Option Bytes) (d : Disk) (priv pub_path : Bytes)
    (rand : Option Bytes)
    → equal priv pub_path ≡ false
    → equal pub_path priv ≡ false
    → d.fixed priv ≡ false
    → Left d priv pub_path
        (write_private encode derive priv pub_path (generate_wg_private_key encode derive rand) d).1
        (write_private encode derive priv pub_path (generate_wg_private_key encode derive rand) d).0
unfolding generate_wg_private_key write_private Left
generated-Left encode derive d priv pub_path none apart apart' k = λ q. refl
generated-Left encode derive d priv pub_path (some bytes) apart apart' k =
    elim (Bool-cases (d.unwritable priv)) [
      | inl bad ↦
          rw (write_file-flag d priv (encode (clamp bytes) ++ codes "\n") 0o600, bad)
            (let (left, same) = unwritten d priv (encode (clamp bytes) ++ codes "\n") 0o600 bad in
              (bad, left, same))
      | inr good ↦
          rw (write_file-flag d priv (encode (clamp bytes) ++ codes "\n") 0o600, good)
            (write_public-Left encode derive d priv pub_path (encode (clamp bytes))
              (derive (encode (clamp bytes))) apart apart' good k)
    ]

-- If `GenerateWireGuardKeypair` succeeds, both keys are written; after an error in deriving or writing the
-- public key, no file is left at the path of the private key; after an error of the random source every
-- file is as before. If the write of the private key itself fails, nothing is cleaned up: what that write
-- left stays at its path, and every other file is as before. The two paths differ, and the private key's
-- file can be removed.
pub generate_wire_guard_keypair-Left :
    (encode : Bytes → Bytes) (derive : Bytes → Option Bytes) (rand : Option Bytes)
    (name out_dir : Bytes) (d : Disk)
    → equal
        (join out_dir (name ++ codes "_private.key"))
        (join out_dir (name ++ codes "_public.key"))
      ≡ false
    → equal
        (join out_dir (name ++ codes "_public.key"))
        (join out_dir (name ++ codes "_private.key"))
      ≡ false
    → d.fixed (join out_dir (name ++ codes "_private.key")) ≡ false
    → Left d
        (join out_dir (name ++ codes "_private.key"))
        (join out_dir (name ++ codes "_public.key"))
        (generate_wire_guard_keypair encode derive rand name out_dir d).1
        (generate_wire_guard_keypair encode derive rand name out_dir d).0
unfolding generate_wire_guard_keypair
generate_wire_guard_keypair-Left encode derive rand name out_dir d apart apart' k =
    generated-Left encode derive d _ _ rand apart apart' k
