-- ===== src/Operators/Items.antt =====
-- The kinds of item and of place that common/Operators.h knows, and what is read back of them.
use conn.Common.{
  is_space, ℕ, ◌≡◌, refl, ap, ◌∙◌, Bool, true, false, ◌||◌, [], ◌∷◌, ◌++◌, some, ◌==◌, Bytes,
  length-append, arith,
}
use mathlib.Core.List.{append_assoc}
use conn.Url.{getline}
use conn.Url.Lines.{Lacks, take_line_at}
use conn.Operators.{
  Element, char_element, Field, text_field, value_field, Item, text_item, value_item, entry_item,
}
use conn.Operators.Streams.{good, get_char_at, squeeze}
use conn.Operators.Extract.{LacksBoth, extract_string-squeeze}
use conn.Operators.Container.{is_end, ReadsBack}

abbrev pub is_mark : ℕ → Bool
is_mark d = d == 44 || d == 62 || d == 61 || d == 93

-- A type whose `operator>>` stops in front of a mark, and restores what `operator<<` printed.
abbrev pub Restores : {A : Type 0} → Element A → (A → Type 0) → Type 0
Restores {A} e Plain =
    (d : ℕ) (x old : A) (rest : Bytes)
    → Plain x
    → is_mark d ≡ true
    → e.read (good (e.print x ++ d ∷ rest)) old ≡ (x, good (d ∷ rest))

mark_visible : (d : ℕ) → is_mark d ≡ true → is_space d ≡ false
mark_visible d h = ground arith

end_mark : (d : ℕ) → is_end d ≡ true → is_mark d ≡ true
end_mark d h = ground arith

abbrev pub IsVisible : ℕ → Type 0
IsVisible c = is_space c ≡ false

pub char_element-Restores : Restores char_element IsVisible
char_element-Restores d x old rest v m = get_char_at x old (d ∷ rest) v

-- A place that is read back together with the character behind it.
abbrev pub ReadsPlace : {A : Type 0} → Field A → ℕ → (A → Type 0) → Type 0
ReadsPlace {A} f delim Plain =
    (dc : ℕ) (x old : A) (rest : Bytes)
    → Plain x
    → (dc' : ℕ) × (f.read delim dc (good (f.print x ++ delim ∷ rest)) old ≡ (x, dc', good rest))

pub text_field-ReadsPlace : (delim : ℕ) → ReadsPlace text_field delim (Lacks delim)
unfolding getline
text_field-ReadsPlace delim dc x old rest k = (dc, rw (take_line_at delim x rest k) refl)

pub value_field-ReadsPlace :
    {A : Type 0} (e : Element A) {Plain : A → Type 0} (delim : ℕ)
    → is_mark delim ≡ true
    → Restores e Plain
    → ReadsPlace (value_field e) delim Plain
value_field-ReadsPlace e delim m restores dc x old rest k = (
  delim,
  rw (restores delim x old rest k m, get_char_at delim dc rest (mark_visible delim m)) refl,
)

-- A text without `,` and `]` loses its whitespace, and nothing else.
pub text_item-ReadsBack : (junk : ℕ) → ReadsBack (text_item junk) (LacksBoth 44 93) squeeze
text_item-ReadsBack junk n dc d x rest k t h = (
  dc,
  rw (extract_string-squeeze 44 93 junk n d x rest k (mark_visible d (end_mark d t)) t h) refl,
)

pub value_item-ReadsBack :
    {A : Type 0} (e : Element A) {Plain : A → Type 0}
    → Restores e Plain
    → ReadsBack (value_item e) Plain (λ x. x)
value_item-ReadsBack e restores n dc d x rest k t h =
    let m = end_mark d t in
    (d, rw (restores d x e.initial rest k m, get_char_at d dc rest (mark_visible d m)) refl)

-- The value of an entry, as it is read back.
abbrev pub kept_value : {K V : Type 0} → (V → V) → K × V → K × V
kept_value kept (k, v) = (k, kept v)

abbrev pub BothPlain : {K V : Type 0} → (K → Type 0) → (V → Type 0) → K × V → Type 0
BothPlain P Q (k, v) = P k × Q v

pub entry_item-ReadsBack :
    {K V : Type 0} (f : Field K) (i : Item V) {P : K → Type 0} {Q : V → Type 0} {kept : V → V}
    → ReadsPlace f 61 P
    → ReadsBack i Q kept
    → ReadsBack (entry_item f i) (BothPlain P Q) (kept_value kept)
entry_item-ReadsBack f i reads_key reads_value n dc d (k, v) rest (p, q) t h =
    let (dc1, e1) = reads_key dc k f.initial (i.print v ++ d ∷ rest) p in
    let (dc2, e2) =
      reads_value n dc1 d v rest q t (omega (arith, length-append (f.print k) (61 ∷ i.print v))) in
    (dc2, rw (append_assoc (f.print k) (61 ∷ i.print v) (d ∷ rest), e1, e2) refl)

-- A text that is read back as it is.
abbrev pub IsSolid : Bytes → Type 0
IsSolid [] = Unit {0}
IsSolid (x ∷ s) = ((is_space x || is_end x) ≡ false) × IsSolid s

solid_parts :
    (x : ℕ)
    → (is_space x || is_end x) ≡ false
    → (is_space x ≡ false) × ((x == 44 || x == 93) ≡ false)
solid_parts x h = ground arith

squeeze-IsSolid : (s : Bytes) → IsSolid s → squeeze s ≡ s
unfolding squeeze
squeeze-IsSolid [] k = refl
squeeze-IsSolid (x ∷ s) (k, ks) = rw (solid_parts x k).0 (ap (λ t. x ∷ t) (squeeze-IsSolid s ks))

IsSolid-LacksBoth : (s : Bytes) → IsSolid s → LacksBoth 44 93 s
IsSolid-LacksBoth [] k = tt
IsSolid-LacksBoth (x ∷ s) (k, ks) = ((solid_parts x k).1, IsSolid-LacksBoth s ks)

pub text_item-IsSolid : (junk : ℕ) → ReadsBack (text_item junk) IsSolid (λ x. x)
text_item-IsSolid junk n dc d x rest k t h =
    let (dc', e) = text_item-ReadsBack junk n dc d x rest (IsSolid-LacksBoth x k) t h in
    (dc', e ∙ ap (λ r. some (r, d == 93, dc', good rest)) (squeeze-IsSolid x k))
