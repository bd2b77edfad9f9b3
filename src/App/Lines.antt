-- ===== src/App/Lines.antt =====
-- The lines that OnShutdown of cli/internal/app/flags_all.go writes for the metrics.
use htvend.Base.{
  String, ◌==◌, ◌≡◌, refl, sym, ap, ◌∙◌, Option, none, some, List, [], ◌∷◌, ◌++◌, arith, inl, inr,
}
use Prim.Native.Char.{code}
use Prim.Native.String.append
use text.Mathlib.TextEquality.{Char-path}
use htvend.Base.{
  string_eq, Option-cases, ◌<>◌, ◌⊎◌, ◌==◌, nat_eq, subst, Bool-cases, some-injective, ==_refl,
  ==_sound,
}
use htvend.Base.Text.{cut_prefix}
use htvend.App.Metrics.{MetricType, counter, other}
use htvend.App.Metrics.{Formats, Metric, MetricFamily, selected, plain_value, line_of}

-- Each element of the list has its lines, one after the other.
abbrev pub Lines : {A : Type 0} → (A → List String → Type 0) → List A → List String → Type 0
Lines L [] ls = ls ≡ []
Lines L (x ∷ xs) ls = (a : List String) × (b : List String) × L x a × Lines L xs b × (ls ≡ a ++ b)

abbrev pub map_lines : {A : Type 0} → (A → List String) → List A → List String
map_lines f [] = []
map_lines f (x ∷ xs) = f x ++ map_lines f xs

pub map_lines-Lines :
    {A : Type 0} (L : A → List String → Type 0) (f : A → List String)
    → ((x : A) → L x (f x))
    → (xs : List A) → Lines L xs (map_lines f xs)
map_lines-Lines L f k [] = refl
map_lines-Lines L f k (x ∷ xs) = (f x, map_lines f xs, k x, map_lines-Lines L f k xs, refl)

cut_prefix-append : (p r : String) → cut_prefix p (p <> r) ≡ some r
unfolding cut_prefix
cut_prefix-append String.[] r = rw (append.nil r) refl
cut_prefix-append (String.◌∷◌ c p) r =
    rw (append.cons c p r, cut_prefix, ==_refl, cut_prefix-append p r) refl

cut_prefix-some : (p s r : String) → cut_prefix p s ≡ some r → s ≡ p <> r
unfolding cut_prefix
cut_prefix-some String.[] s r h = some-injective s r h ∙ sym (append.nil r)
cut_prefix-some (String.◌∷◌ c p) String.[] r h = absurd (cc)
cut_prefix-some (String.◌∷◌ c p) (String.◌∷◌ d s) r h = elim (Bool-cases (code c == code d)) [
  | inr apart ↦ absurd (let q = rw apart at h in cc)
  | inl same ↦
      let q = cut_prefix-some p s r (rw same at h) in
      rw (Char-path c d (==_sound (code c) (code d) same), q, append.cons d p r) refl
]

module _ (V : Formats) where
  -- A counter that has no labels has its line, and any other metric none.
  abbrev pub MetricLine : String → Metric V → List String → Type 0
  MetricLine name mm ls =
      ((v : V.Float64) × (mm.label ≡ [])
        × (mm.counter_value ≡ some (some v))
        × (ls ≡ (name <> ("=" <> (V.decimal (V.uint64 v) <> "\n"))) ∷ []))
      ⊎ (((v : V.Float64) → mm.label ≡ [] → mm.counter_value ≡ some (some v) → ⊥) × (ls ≡ []))

  -- A family of counters whose name begins with htvend_ has the lines of its metrics, and any other
  -- none.
  abbrev pub FamilyLines : MetricFamily V → List String → Type 0
  FamilyLines m ls =
      ((rest : String) × (m.name ≡ some ("htvend_" <> rest))
        × (m.type_of ≡ some counter)
        × Lines (MetricLine ("htvend_" <> rest)) m.metric ls)
      ⊎ (((rest : String) → m.name ≡ some ("htvend_" <> rest) → m.type_of ≡ some counter → ⊥)
          × (ls ≡ []))

  -- The line for one metric, if it is written out; those of a family; those of all families.
  abbrev pub metric_lines : String → Metric V → List String
  metric_lines name mm = elim (plain_value V mm) [ none ↦ [] | some v ↦ line_of V name v ∷ [] ]

  abbrev pub family_lines : MetricFamily V → List String
  family_lines m = elim (selected V m) [
    | none ↦ []
    | some name ↦ map_lines (metric_lines name) m.metric
  ]

  abbrev pub all_lines : List (MetricFamily V) → List String
  all_lines = map_lines family_lines

  metric_lines-MetricLine :
      (name : String) (mm : Metric V) → MetricLine name mm (metric_lines name mm)
  unfolding plain_value
  metric_lines-MetricLine name mm = go mm.label mm.counter_value
    where
      go :
          (label : List String) (value : Option (Option V.Float64))
          → let m : Metric V = record { label = label; counter_value = value } in
            MetricLine name m (metric_lines name m)
      go (l ∷ ls) value = inr (λ v e h. cc, refl)
      go [] none = inr (λ v e h. cc, refl)
      go [] (some none) = inr (λ v e h. (let q = some-injective none (some v) h in cc), refl)
      go [] (some (some v)) = inl (v, refl, refl, refl)

  pub family_lines-FamilyLines : (m : MetricFamily V) → FamilyLines m (family_lines m)
  unfolding selected
  family_lines-FamilyLines m = go m.name m.type_of
    where
      shown :
          (name rest : String)
          → cut_prefix "htvend_" name ≡ some rest
          → let n : MetricFamily V = record {
            name = some name;
            type_of = some counter;
            metric = m.metric;
          } in
            family_lines n ≡ map_lines (metric_lines name) m.metric
      shown name rest there = ground (arith, there)

      go :
          (name : Option String) (type_of : Option MetricType)
          → let n : MetricFamily V = record { name = name; type_of = type_of; metric = m.metric } in
            FamilyLines n (family_lines n)
      go none t = inr (λ rest e h. cc, refl)
      go (some name) (some other) = inr (λ rest e h. cc, ground arith)
      go (some name) none = inr (λ rest e h. cc, ground arith)
      go (some name) (some counter) = elim (Option-cases (cut_prefix "htvend_" name)) [
        | inl absent ↦ inr (
          λ rest e h.
              (let q = some-injective name ("htvend_" <> rest) e in
                let p = rw (q, cut_prefix-append "htvend_" rest) at absent in cc),
          ground (arith, absent),
        )
        | inr (rest, there) ↦
            let q = cut_prefix-some "htvend_" name rest there in
            inl (
              rest,
              ap some q,
              refl,
              subst (Lines (MetricLine ("htvend_" <> rest)) m.metric) (sym (shown name rest there))
                  (subst
                    (λ (x : String).
                      Lines (MetricLine x) m.metric (map_lines (metric_lines name) m.metric))
                    q
                    (map_lines-Lines (MetricLine name) (metric_lines name)
                      (metric_lines-MetricLine name) m.metric)),
            )
      ]
