-- ===== src/Backend/Again.antt =====
-- A backend that is patched has all the new texts, and patching it again changes nothing.
use interspec_typed_allocato.Prelude.{
  ◌≡◌, refl, sym, ap, ◌∙◌, subst, Bool, true, false, not, ◌&&◌, ◌||◌, inl, inr, Option, none, some,
  List, [], ◌∷◌, arith, Text, same, same_iff, All, Bool-cases, missing_file, Result, ok, err, ◌>>=◌,
  from_option, >>=-eq-ok, from_option-eq-ok, if◌then◌else◌,
}
use interspec_typed_allocato.Patch.{has, replace}
use interspec_typed_allocato.Patch.Idempotent.{
  Patched, Patched-has, replace-Patched_again, replace-has,
}
use interspec_typed_allocato.Backend.{Files, write_text, Patch, replace_file, apply_patches}
use interspec_typed_allocato.Backend.Apart.{clashes, has-replaced}

-- The file of the patch has its new text.
abbrev pub HasNew : Files → Patch → Type 0
HasNew files patch = (text : Text) × (files patch.path ≡ some text) × (has patch.new text ≡ true)

-- The second patch leaves the new text of the first one alone.
unfoldable pub keeps : Patch → Patch → Bool
unfolding same clashes
keeps patch later =
    not (same patch.path later.path)
    || (not (clashes later.old patch.new) && not (clashes patch.new later.old))

unfoldable pub all_keep : Patch → List Patch → Bool
all_keep patch [] = true
all_keep patch (later ∷ rest) = keeps patch later && all_keep patch rest

-- No patch of the list undoes an earlier one.
unfoldable pub all_kept : List Patch → Bool
all_kept [] = true
all_kept (patch ∷ rest) = all_keep patch rest && all_kept rest

-- What a patch of a file did.
abbrev Replaced : Files → Patch → Files → Type 0
Replaced files patch files' =
    (text : Text) × (result : Text) × (files patch.path ≡ some text)
    × Patched patch.old patch.new text result
    × (has patch.new result ≡ true)
    × (files' ≡ (if has patch.new text then files else write_text patch.path result files))

files_injective : {f g : Files} → ok f ≡ ok g → f ≡ g
files_injective {f} h = ap (λ (r : Result Files). elim r [ ok a ↦ a | err _ ↦ f ]) h

replace_file-Replaced :
    (files : Files) (patch : Patch) {files' : Files}
    → replace_file files patch ≡ ok files'
    → Replaced files patch files'
unfolding replace_file
replace_file-Replaced files patch h =
    let (text, e, h₁) = >>=-eq-ok (from_option (missing_file patch.path) (files patch.path)) _ h in
    let (result, e', h₂) = >>=-eq-ok (replace text patch.old patch.new) _ h₁ in
    let (patched, _) = replace-Patched_again text patch.old patch.new e' in
    (
      text,
      result,
      from_option-eq-ok (missing_file patch.path) _ e,
      patched,
      Patched-has patch.old patch.new text result patched,
      files_injective (sym h₂),
    )

same_refl : (path : Text) → same path path ≡ true
same_refl path = (same_iff path path).1 refl

-- The file that is read afterwards, at the path of the patch and at another one.
Replaced-here :
    (files : Files) (patch : Patch) (files' : Files)
    → (r : Replaced files patch files') → files' patch.path ≡ some r.1
Replaced-here files patch files' (text, result, e, inl (f, same_text), t, w) =
    let unchanged : files' ≡ files =
      w ∙ ap (λ b. if b then files else write_text patch.path result files) f in
    ap (λ (g : Files). g patch.path) unchanged ∙ e ∙ ap some (sym same_text)
Replaced-here files patch files' (text, result, e, inr (f, _), t, w) =
    let written : files' ≡ write_text patch.path result files =
      w ∙ ap (λ b. if b then files else write_text patch.path result files) f in
    ap (λ (g : Files). g patch.path) written
    ∙ ap (λ (b : Bool). if b then some result else files patch.path) (same_refl patch.path)

Replaced-HasNew :
    (files : Files) (patch : Patch) (files' : Files)
    → Replaced files patch files'
    → HasNew files' patch
Replaced-HasNew files patch files' r = (r.1, Replaced-here files patch files' r, r.4)

Replaced-elsewhere :
    (files : Files) (patch : Patch) (files' : Files) (path : Text)
    → Replaced files patch files'
    → same patch.path path ≡ false
    → files' path ≡ files path
Replaced-elsewhere files patch files' path (text, result, e, p, t, w) n =
    ap (λ (g : Files). g path) w ∙ elim (Bool-cases (has patch.new text)) [
      | inl y ↦ ap (λ (b : Bool). (if b then files else write_text patch.path result files) path) y
      | inr f ↦
          ap (λ (b : Bool). (if b then files else write_text patch.path result files) path) f
          ∙ ap (λ (b : Bool). if b then some result else files path) n
    ]

Patched-keeps :
    (old new part text result : Text)
    → clashes old part ≡ false
    → clashes part old ≡ false
    → has part text ≡ true
    → Patched old new text result
    → has part result ≡ true
Patched-keeps old new part text result h k t (inl (f, r)) = ap (has part) r ∙ t
Patched-keeps old new part text result h k t (inr (f, (before, (after, found, s, r)))) =
    ap (has part) r ∙ has-replaced part old new before after h k (ap (has part) (sym s) ∙ t)

-- A new text stays where it is through a later patch that keeps it.
keeps-HasNew :
    (files : Files) (patch later : Patch) (files' : Files)
    → HasNew files patch
    → keeps patch later ≡ true
    → Replaced files later files'
    → HasNew files' patch
unfolding keeps
keeps-HasNew files patch later files' (current, c, t) k r =
    elim (Bool-cases (same later.path patch.path)) [
      | inr n ↦ (current, Replaced-elsewhere files later files' patch.path r n ∙ c, t)
      | inl y ↦
          let (text, result, e, p, _, _) = r in
          let same_path : later.path ≡ patch.path = (same_iff later.path patch.path).0 y in
          let both : same patch.path later.path ≡ true =
            (same_iff patch.path later.path).1 (sym same_path) in
          let (h, h') : (clashes later.old patch.new ≡ false)
              × (clashes patch.new later.old ≡ false) =
            (ground arith, ground arith) in
          let one_text : current ≡ text = some_injective (sym c ∙ ap files (sym same_path) ∙ e) in
          (
            result,
            ap files' (sym same_path) ∙ Replaced-here files later files' r,
            Patched-keeps later.old later.new patch.new text result h h'
                (ap (has patch.new) (sym one_text) ∙ t) p,
          )
    ]
  where
    some_injective : {x y : Text} → some x ≡ some y → x ≡ y
    some_injective {x} h = ap (λ (o : Option Text). elim o [ none ↦ x | some z ↦ z ]) h

-- A patch whose new text is there changes nothing.
HasNew-again :
    (files : Files) (patch : Patch) → HasNew files patch → replace_file files patch ≡ ok files
unfolding replace_file
HasNew-again files patch (text, e, t) =
    rw (e, replace_file) (rw (replace-has text patch.old patch.new t) (rw t refl))

apply_patches_again :
    (files : Files) (patches : List Patch)
    → All (HasNew files) patches
    → apply_patches files patches ≡ ok files
unfolding apply_patches
apply_patches_again files [] h = refl
apply_patches_again files (patch ∷ rest) (h, more) =
    ap (λ (r : Result Files). r >>= λ f. apply_patches f rest) (HasNew-again files patch h)
    ∙ apply_patches_again files rest more

-- A new text stays through all later patches.
all_keep-HasNew :
    (patch : Patch) (rest : List Patch) (files : Files) {files' : Files}
    → all_keep patch rest ≡ true
    → HasNew files patch
    → apply_patches files rest ≡ ok files'
    → HasNew files' patch
unfolding apply_patches all_keep
all_keep-HasNew patch [] files k h e = subst (λ f. HasNew f patch) (files_injective e) h
all_keep-HasNew patch (later ∷ rest) files k h e =
    let (next, e₁, e₂) = >>=-eq-ok (replace_file files later) _ e in
    let (k₁, k₂) : (keeps patch later ≡ true) × (all_keep patch rest ≡ true) =
      (ground arith, ground arith) in
    all_keep-HasNew patch rest next k₂
      (keeps-HasNew files patch later next h k₁ (replace_file-Replaced files later e₁)) e₂

apply_patches-AllNew :
    (patches : List Patch) (files : Files) {files' : Files}
    → all_kept patches ≡ true
    → apply_patches files patches ≡ ok files'
    → All (HasNew files') patches
unfolding apply_patches all_kept
apply_patches-AllNew [] files k e = tt
apply_patches-AllNew (patch ∷ rest) files k e =
    let (next, e₁, e₂) = >>=-eq-ok (replace_file files patch) _ e in
    let (k₁, k₂) : (all_keep patch rest ≡ true) × (all_kept rest ≡ true) =
      (ground arith, ground arith) in
    let h = Replaced-HasNew files patch next (replace_file-Replaced files patch e₁) in
    (all_keep-HasNew patch rest next k₁ h e₂, apply_patches-AllNew rest next k₂ e₂)

apply_patches-elsewhere :
    (patches : List Patch) (files : Files) (path : Text) {files' : Files}
    → apply_patches files patches ≡ ok files'
    → All (λ (patch : Patch). same patch.path path ≡ false) patches
    → files' path ≡ files path
unfolding apply_patches
apply_patches-elsewhere [] files path e n = ap (λ (f : Files). f path) (sym (files_injective e))
apply_patches-elsewhere (patch ∷ rest) files path e (n, more) =
    let (next, e₁, e₂) = >>=-eq-ok (replace_file files patch) _ e in
    apply_patches-elsewhere rest next path e₂ more
    ∙ Replaced-elsewhere files patch next path (replace_file-Replaced files patch e₁) n

-- The files behind a sequence of patches: all new texts are in their files, the files at other
-- paths are as they were, and the sequence can be applied again and changes nothing then.
pub record IsApplied (patches : List Patch) (files files' : Files) : Type 0 where
  pub all_new : All (HasNew files') patches
  pub others :
      (path : Text)
      → All (λ (patch : Patch). same patch.path path ≡ false) patches
      → files' path ≡ files path
  pub again : apply_patches files' patches ≡ ok files'

pub apply_patches-IsApplied :
    (patches : List Patch) (files : Files) {files' : Files}
    → all_kept patches ≡ true
    → apply_patches files patches ≡ ok files'
    → IsApplied patches files files'
apply_patches-IsApplied patches files {files'} k e =
    let all_there = apply_patches-AllNew patches files k e in
    record {
      all_new = all_there;
      others = λ path n. apply_patches-elsewhere patches files path e n;
      again = apply_patches_again files' patches all_there;
    }
