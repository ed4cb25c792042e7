-- ===== src/Search/Ranges.antt =====
-- Searches of several ranges, one after the other.
use thread_scan.Base.{ℕ, ◌⊎◌, inl, inr, ◌∙◌, List, [], ◌∷◌, ◌++◌, cell}
use thread_scan.Search.Marking.{Refers, Searched}

-- All words of the ranges.
abbrev pub words_of : List (List ℕ) → List ℕ
words_of [] = []
words_of (mem ∷ ranges) = mem ++ words_of ranges

pub Refers-append : (p : ℕ) (xs ys : List ℕ) → Refers p xs ⊎ Refers p ys → Refers p (xs ++ ys)
Refers-append p [] ys h = elim h [ inl none_here ↦ absurd none_here | inr r ↦ r ]
Refers-append p (x ∷ xs) ys h = elim h [
  | inl first ↦ elim first [ inl e ↦ inl e | inr r ↦ inr (Refers-append p xs ys (inl r)) ]
  | inr r ↦ inr (Refers-append p xs ys (inr r))
]

pub Refers-split : (p : ℕ) (xs ys : List ℕ) → Refers p (xs ++ ys) → Refers p xs ⊎ Refers p ys
Refers-split p [] ys h = inr h
Refers-split p (x ∷ xs) ys h = elim h [
  | inl e ↦ inl (inl e)
  | inr r ↦ elim (Refers-split p xs ys r) [ inl l ↦ inl (inr l) | inr l ↦ inr l ]
]

pub Searched-append :
    (n : ℕ) (base xs ys a b c : List ℕ)
    → Searched n base xs a b
    → Searched n base ys b c
    → Searched n base (xs ++ ys) a c
Searched-append n base xs ys a b c s r = record {
  marking = r.marking;
  same_length = r.same_length ∙ s.same_length;
  untouched = λ i p. r.untouched i p ∙ s.untouched i p;
  kept = λ i p e. r.kept i p (s.kept i p e);
  marked = λ i p pos ref. elim (Refers-split (cell base i) xs ys ref) [
    | inl early ↦ r.kept i p (s.marked i p pos early)
    | inr late ↦ r.marked i p pos late
  ];
  only = λ i p e. elim (r.only i p e) [
    | inl before ↦ elim (s.only i p before) [
      | inl old ↦ inl old
      | inr early ↦ inr (Refers-append (cell base i) xs ys (inl early))
    ]
    | inr late ↦ inr (Refers-append (cell base i) xs ys (inr late))
  ];
}
