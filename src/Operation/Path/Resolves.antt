-- ===== src/Operation/Path/Resolves.antt =====
-- A resolved path has the segments of its template, and no others.
use mathlib.Core.Path.{◌≡◌, refl}
use mathlib.Core.Bool.{Bool, true, false, ◌&&◌}
use mathlib.Core.Option.{Option, some}
use mathlib.Core.List.{List, [], ◌∷◌}
use agent_key_vault_jit_acce.Prelude.Tests.{if◌then◌else◌}
use agent_key_vault_jit_acce.Prelude.Evolves.{All}
use agent_key_vault_jit_acce.Operation.Text.{Text, text_eq, split, join, path_escape}
use agent_key_vault_jit_acce.Operation.Text.Splits.{
  Lacks, split-join, split-Lacks, path_escape-Lacks, split-cons,
}
use agent_key_vault_jit_acce.Operation.Outcome.{
  Outcome, ok, invalid_template, invalid_arguments, ◌>>=◌, >>=-ok, refuse_if-ok, or_invalid-ok,
  carries,
}
use agent_key_vault_jit_acce.Operation.Path.{
  PathSegment, literal, placeholder, slash, unsafe_path_argument, is_last, validate_placeholder,
  validate_literal, validate_part, add_seen, validate_parts, validate_split, validate_path,
  path_parts, resolve_path,
}

-- What a part of the resolved path is: the literal, or the escaped value of the placeholder, which
-- is a safe argument.
abbrev pub Resolves : (Text → Option Text) → PathSegment → Text → Type 0
Resolves lookup (literal t) part = part ≡ t
Resolves lookup (placeholder name) part =
    (value : Text) × (lookup name ≡ some value)
    × (unsafe_path_argument value ≡ false)
    × (part ≡ path_escape value)

abbrev pub Matches : (Text → Option Text) → List PathSegment → List Text → Type 0
Matches lookup [] [] = Unit
Matches lookup (s ∷ segments) (t ∷ parts) = Resolves lookup s t × Matches lookup segments parts
Matches lookup _ _ = ⊥

abbrev SegmentLacks : PathSegment → Type 0
SegmentLacks (literal t) = Lacks slash t
SegmentLacks (placeholder name) = Unit

validate_placeholder-Lacks :
    (seen : List Text) (name : Text) (s : PathSegment)
    → validate_placeholder seen name ≡ ok s
    → SegmentLacks s
unfolding validate_placeholder
validate_placeholder-Lacks seen name s h =
    let (b, h₁) = refuse_if-ok _ invalid_template _ h in
    let (c, h₂) = refuse_if-ok _ invalid_template _ h₁ in carries SegmentLacks h₂ tt

validate_literal-Lacks :
    (part : Text) (s : PathSegment)
    → Lacks slash part
    → validate_literal part ≡ ok s
    → SegmentLacks s
unfolding validate_literal
validate_literal-Lacks part s a h =
    let (b, h₁) = refuse_if-ok _ invalid_template _ h in carries SegmentLacks h₁ a

-- Both branches of a test.
branches :
    {A : Type 0} (P : A → Type 0) (b : Bool) (x y : Outcome A) {a : A}
    → (if b then x else y) ≡ ok a
    → (x ≡ ok a → P a)
    → (y ≡ ok a → P a)
    → P a
branches P true x y h f g = f h
branches P false x y h f g = g h

validate_part-Lacks :
    (seen : List Text) (part : Text) (s : PathSegment)
    → Lacks slash part
    → validate_part seen part ≡ ok s
    → SegmentLacks s
unfolding validate_part
validate_part-Lacks seen part s a h =
    let (b, h₁) = refuse_if-ok _ invalid_template _ h in
    branches SegmentLacks _ _ _ h₁ (validate_placeholder-Lacks seen _ s)
      (validate_literal-Lacks part s a)

validate_parts-Lacks :
    (seen : List Text) (parts : List Text) (segments : List PathSegment)
    → All (Lacks slash) parts
    → validate_parts seen parts ≡ ok segments
    → All SegmentLacks segments
unfolding validate_parts
validate_parts-Lacks seen [] segments a h = carries (All SegmentLacks) h tt
validate_parts-Lacks seen (part ∷ parts) segments a h =
    let next : PathSegment → Outcome (List PathSegment) =
      λ segment. validate_parts (add_seen segment seen) parts >>= λ rest. ok (segment ∷ rest) in
    branches (All SegmentLacks) (text_eq part [] && is_last parts) (ok (literal part ∷ []))
      (validate_part seen part >>= next) h
      (λ last. carries (All SegmentLacks) {x = literal part ∷ []} last (a.0, tt))
      (λ more.
        let (s, h₁, h₂) = >>=-ok (validate_part seen part) next more in
        let (rest, h₃, h₄) =
          >>=-ok (validate_parts (add_seen s seen) parts) (λ rest. ok (s ∷ rest)) h₂ in
        carries (All SegmentLacks) {x = s ∷ rest} h₄ (
          validate_part-Lacks seen part s a.0 h₁,
          validate_parts-Lacks (add_seen s seen) parts rest a.1 h₃,
        ))

validate_split-Lacks :
    (parts : List Text) (segments : List PathSegment)
    → All (Lacks slash) parts
    → validate_split parts ≡ ok segments
    → All SegmentLacks segments
unfolding validate_split
validate_split-Lacks [] segments a h = carries (All SegmentLacks) h tt
validate_split-Lacks (part ∷ parts) segments a h =
    let (rest, h₁, h₂) = >>=-ok (validate_parts [] parts) _ h in
    carries (All SegmentLacks) h₂ (a.0, validate_parts-Lacks [] parts rest a.1 h₁)

pub validate_path-Lacks :
    (path : Text) (segments : List PathSegment)
    → validate_path path ≡ ok segments
    → All SegmentLacks segments
unfolding validate_path
validate_path-Lacks path segments h =
    let (b, h₁) = refuse_if-ok _ invalid_template _ h in
    validate_split-Lacks (split slash path) segments (split-Lacks slash path) h₁

abbrev Inhabited : List PathSegment → Type 0
Inhabited [] = ⊥
Inhabited (s ∷ segments) = Unit

validate_split-nonempty :
    (part : Text) (parts : List Text) → validate_split (part ∷ parts) ≡ ok [] → ⊥
unfolding validate_split
validate_split-nonempty part parts h =
    let (rest, h₁, h₂) = >>=-ok (validate_parts [] parts) _ h in
    carries Inhabited {x = literal part ∷ rest} {y = []} h₂ tt

validate_path-nonempty : (path : Text) → validate_path path ≡ ok [] → ⊥
unfolding validate_path
validate_path-nonempty path h =
    let (b, h₁) = refuse_if-ok _ invalid_template (validate_split (split slash path)) h in
    let (part, parts, e) = split-cons slash path in validate_split-nonempty part parts (rw e at h₁)

module _ (lookup : Text → Option Text) where
  path_parts-Matches :
      (segments : List PathSegment) (parts : List Text)
      → All SegmentLacks segments
      → path_parts lookup segments ≡ ok parts
      → Matches lookup segments parts × All (Lacks slash) parts
  unfolding path_parts
  path_parts-Matches [] parts a h =
      carries (λ ps. Matches lookup [] ps × All (Lacks slash) ps) h (tt, tt)
  path_parts-Matches (literal t ∷ segments) parts a h =
      let (rest, h₁, h₂) = >>=-ok (path_parts lookup segments) _ h in
      let (m, l) = path_parts-Matches segments rest a.1 h₁ in
      carries (λ ps. Matches lookup (literal t ∷ segments) ps × All (Lacks slash) ps) h₂
        ((refl, m), (a.0, l))
  path_parts-Matches (placeholder name ∷ segments) parts a h =
      let (value, found, h₁) = or_invalid-ok (lookup name) invalid_arguments _ h in
      let (safe, h₂) = refuse_if-ok (unsafe_path_argument value) invalid_arguments _ h₁ in
      let (rest, h₃, h₄) = >>=-ok (path_parts lookup segments) _ h₂ in
      let (m, l) = path_parts-Matches segments rest a.1 h₃ in
      carries (λ ps. Matches lookup (placeholder name ∷ segments) ps × All (Lacks slash) ps) h₄
        (((value, found, safe, refl), m), (path_escape-Lacks value, l))

  joined :
      (s : PathSegment) (segments : List PathSegment) (parts : List Text)
      → Matches lookup (s ∷ segments) parts
      → All (Lacks slash) parts
      → Matches lookup (s ∷ segments) (split slash (join slash parts))
  joined s segments [] m l = absurd m
  joined s segments (part ∷ parts) m l = rw (split-join slash part parts l) m

  resolve_path-Matches :
      (s : PathSegment) (segments : List PathSegment) (path : Text)
      → All SegmentLacks (s ∷ segments)
      → resolve_path lookup (s ∷ segments) ≡ ok path
      → Matches lookup (s ∷ segments) (split slash path)
  unfolding resolve_path
  resolve_path-Matches s segments path a h =
      let (parts, h₁, h₂) = >>=-ok (path_parts lookup (s ∷ segments)) _ h in
      let (m, l) = path_parts-Matches (s ∷ segments) parts a h₁ in
      carries (λ p. Matches lookup (s ∷ segments) (split slash p)) h₂ (joined s segments parts m l)

-- A path that is validated and then resolved has the segments of its template, and no others: each
-- literal stands where it stood, and each placeholder is one segment, the escaped value that is
-- bound to it, which is not empty, `.` or `..`, and holds no separator or control character.
pub resolve_path-segments :
    (lookup : Text → Option Text) (template : Text) (segments : List PathSegment) (path : Text)
    → validate_path template ≡ ok segments
    → resolve_path lookup segments ≡ ok path
    → Matches lookup segments (split slash path)
resolve_path-segments lookup template [] path v h = absurd (validate_path-nonempty template v)
resolve_path-segments lookup template (s ∷ segments) path v h =
    resolve_path-Matches lookup s segments path (validate_path-Lacks template (s ∷ segments) v) h
