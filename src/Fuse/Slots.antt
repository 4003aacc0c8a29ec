-- ===== src/Fuse/Slots.antt =====
-- What a slot of the fused list of nhpc_qa/retrieval/search/fuse.py holds.
use nhpc_parliament_rag_syst.Prelude.{
  ℕ, ◌≡◌, refl, ap, sym, ◌∙◌, true, false, Option, none, some, List, [], ◌∷◌, ◌++◌, filter, String,
  str_eq, eq_iff, if◌then◌else◌, ltb, Bool-cases, inl, inr, arith,
}
use nhpc_parliament_rag_syst.Fuse.{
  Numbers, Hit, set_rank, FuseConfig, Slot, contribution, empty_slot, represent, absorb, take_hit,
  take_hits, accumulate,
}

-- A hit with the name of its retriever, in the order in which the code meets them.
abbrev tag : String → List Hit → List (String × Hit)
tag r [] = []
tag r (h ∷ hs) = (r, h) ∷ tag r hs

abbrev pub tagged : List (String × List Hit) → List (String × Hit)
tagged [] = []
tagged ((r, hs) ∷ lists) = tag r hs ++ tagged lists

-- The hits on a document.
abbrev pub hits_on : String → List (String × Hit) → List (String × Hit)
hits_on k = filter (λ (t : String × Hit). str_eq t.1.doc_key k)

same_key : (a b k : String) → str_eq a b ≡ true → str_eq a k ≡ str_eq b k
same_key a b k h = ap (λ (x : String). str_eq x k) ((eq_iff a b).0 h)

other_key : (a b k : String) → str_eq a b ≡ false → str_eq b k ≡ true → str_eq a k ≡ false
other_key a b k differ same = ap (str_eq a) (sym ((eq_iff b k).0 same)) ∙ differ

-- The smaller of a rank and another, if there is one.
abbrev pub better : ℕ → Option ℕ → Option ℕ
better n none = some n
better n (some m) = some (if ltb n m then n else m)

abbrev pub either_rank : Option ℕ → Option ℕ → Option ℕ
either_rank none o = o
either_rank (some n) o = better n o

-- The best rank that a retriever gave, among hits; and the rank that a slot records.
abbrev pub best_rank : String → List (String × Hit) → Option ℕ
best_rank r [] = none
best_rank r ((s, h) ∷ ts) =
    let rest = best_rank r ts in if str_eq s r then better h.rank rest else rest

abbrev pub rank_of : String → List (String × ℕ) → Option ℕ
rank_of r [] = none
rank_of r ((s, n) ∷ rs) = let rest = rank_of r rs in if str_eq s r then some n else rest

either-better : (n : ℕ) (o p : Option ℕ) → either_rank o (better n p) ≡ either_rank (better n o) p
either-better n none p = refl
either-better n (some x) none = ap some (ground arith)
either-better n (some x) (some y) = ap some (ground arith)

rank_of-set_rank :
    (r s : String) (n : ℕ) (rs : List (String × ℕ))
    → rank_of r (set_rank s n rs) ≡ (if str_eq s r then better n (rank_of r rs) else rank_of r rs)
unfolding set_rank
rank_of-set_rank r s n [] = refl
rank_of-set_rank r s n ((t, m) ∷ rs) = elim (Bool-cases (str_eq t s)) [
  | inl same ↦
      rw (same, same_key t s r same)
        (elim (Bool-cases (str_eq s r)) [ inl e ↦ rw e refl | inr e ↦ rw e refl ])
  | inr differ ↦ rw differ (elim (Bool-cases (str_eq s r)) [
    | inl e ↦ rw (e, other_key t s r differ e) (rank_of-set_rank r s n rs ∙ rw e refl)
    | inr e ↦ rw e (
        ap (λ (o : Option ℕ). if str_eq t r then some m else o)
          (rank_of-set_rank r s n rs ∙ rw e refl))
  ])
]

pub either_none : (o : Option ℕ) → either_rank o none ≡ o
either_none none = refl
either_none (some n) = refl

module _ (num : Numbers) where
  open num use {Number, zero_point, plus}

  -- The scores of hits, added up in their order.
  abbrev pub total : FuseConfig num → Number → List (String × Hit) → Number
  total cfg x [] = x
  total cfg x ((r, h) ∷ ts) = total cfg (plus x (contribution num cfg r h)) ts

  -- What the hits on one document do to its slot.
  abbrev pub absorb_all : FuseConfig num → List (String × Hit) → Slot num → Slot num
  absorb_all cfg [] a = a
  absorb_all cfg ((r, h) ∷ ts) a = absorb_all cfg ts (absorb num cfg r h a)

  abbrev pub hit_first : FuseConfig num → String → Hit → List (Slot num) → List (Slot num)
  hit_first cfg r h [] = absorb num cfg r h (empty_slot num h) ∷ []
  hit_first cfg r h (a ∷ slots) = absorb num cfg r h a ∷ slots

  abbrev pub hit_all : FuseConfig num → List (String × Hit) → List (Slot num) → List (Slot num)
  hit_all cfg [] slots = slots
  hit_all cfg ((r, h) ∷ ts) slots = hit_all cfg ts (hit_first cfg r h slots)

  abbrev pub slots_on : String → List (Slot num) → List (Slot num)
  slots_on k = filter (λ a. str_eq a.doc_key k)

  doc_key-represent :
      (c : Number) (h : Hit) (a : Slot num) → (represent num c h a).doc_key ≡ a.doc_key
  unfolding represent
  doc_key-represent c h a = elim (Bool-cases (num.below a.best_contrib c)) [
    | inl e ↦ rw e refl
    | inr e ↦ rw e refl
  ]

  rrf_score-represent :
      (c : Number) (h : Hit) (a : Slot num) → (represent num c h a).rrf_score ≡ a.rrf_score
  unfolding represent
  rrf_score-represent c h a = elim (Bool-cases (num.below a.best_contrib c)) [
    | inl e ↦ rw e refl
    | inr e ↦ rw e refl
  ]

  ranks-represent : (c : Number) (h : Hit) (a : Slot num) → (represent num c h a).ranks ≡ a.ranks
  unfolding represent
  ranks-represent c h a = elim (Bool-cases (num.below a.best_contrib c)) [
    | inl e ↦ rw e refl
    | inr e ↦ rw e refl
  ]

  doc_key-absorb :
      (cfg : FuseConfig num) (r : String) (h : Hit) (a : Slot num)
      → (absorb num cfg r h a).doc_key ≡ a.doc_key
  unfolding absorb
  doc_key-absorb cfg r h a = doc_key-represent _ h _

  rrf_score-absorb :
      (cfg : FuseConfig num) (r : String) (h : Hit) (a : Slot num)
      → (absorb num cfg r h a).rrf_score ≡ plus a.rrf_score (contribution num cfg r h)
  unfolding absorb
  rrf_score-absorb cfg r h a = rrf_score-represent _ h _

  ranks-absorb :
      (cfg : FuseConfig num) (r : String) (h : Hit) (a : Slot num)
      → (absorb num cfg r h a).ranks ≡ set_rank r h.rank a.ranks
  unfolding absorb
  ranks-absorb cfg r h a = ranks-represent _ h _

  -- A hit changes the slot of its own document and no other.
  slots_on-take_hit :
      (cfg : FuseConfig num) (k r : String) (h : Hit) (slots : List (Slot num))
      → slots_on k (take_hit num cfg r h slots)
        ≡ (if str_eq h.doc_key k then hit_first cfg r h (slots_on k slots) else slots_on k slots)
  unfolding take_hit empty_slot absorb
  slots_on-take_hit cfg k r h [] =
      ap (λ (key : String). if str_eq key k then absorb num cfg r h (empty_slot num h) ∷ [] else [])
        (doc_key-absorb cfg r h (empty_slot num h))
  slots_on-take_hit cfg k r h (a ∷ slots) = elim (Bool-cases (str_eq a.doc_key h.doc_key)) [
    | inl same ↦
        rw (same, doc_key-absorb cfg r h a, same_key a.doc_key h.doc_key k same)
          (elim (Bool-cases (str_eq h.doc_key k)) [ inl e ↦ rw e refl | inr e ↦ rw e refl ])
    | inr differ ↦ rw differ (elim (Bool-cases (str_eq h.doc_key k)) [
      | inl e ↦
          rw (e, other_key a.doc_key h.doc_key k differ e)
            (slots_on-take_hit cfg k r h slots ∙ rw e refl)
      | inr e ↦ rw e (
          ap (λ (l : List (Slot num)). if str_eq a.doc_key k then a ∷ l else l)
            (slots_on-take_hit cfg k r h slots ∙ rw e refl))
    ])
  ]

  hit_all-append :
      (cfg : FuseConfig num) (ts us : List (String × Hit)) (slots : List (Slot num))
      → hit_all cfg (ts ++ us) slots ≡ hit_all cfg us (hit_all cfg ts slots)
  hit_all-append cfg [] us slots = refl
  hit_all-append cfg ((r, h) ∷ ts) us slots = hit_all-append cfg ts us (hit_first cfg r h slots)

  slots_on-take_hits :
      (cfg : FuseConfig num) (k r : String) (hs : List Hit) (slots : List (Slot num))
      → slots_on k (take_hits num cfg r hs slots)
        ≡ hit_all cfg (hits_on k (tag r hs)) (slots_on k slots)
  unfolding take_hits
  slots_on-take_hits cfg k r [] slots = refl
  slots_on-take_hits cfg k r (h ∷ hs) slots =
      slots_on-take_hits cfg k r hs (take_hit num cfg r h slots)
      ∙ ap (hit_all cfg (hits_on k (tag r hs))) (slots_on-take_hit cfg k r h slots)
      ∙ elim (Bool-cases (str_eq h.doc_key k)) [ inl e ↦ rw e refl | inr e ↦ rw e refl ]

  hits_on-append :
      (k : String) (ts us : List (String × Hit))
      → hits_on k (ts ++ us) ≡ hits_on k ts ++ hits_on k us
  hits_on-append k [] us = refl
  hits_on-append k (t ∷ ts) us = elim (Bool-cases (str_eq t.1.doc_key k)) [
    | inl e ↦ rw e (ap (λ (l : List (String × Hit)). t ∷ l) (hits_on-append k ts us))
    | inr e ↦ rw e (hits_on-append k ts us)
  ]

  pub slots_on-accumulate :
      (cfg : FuseConfig num) (k : String) (lists : List (String × List Hit))
      (slots : List (Slot num))
      → slots_on k (accumulate num cfg lists slots)
        ≡ hit_all cfg (hits_on k (tagged lists)) (slots_on k slots)
  unfolding accumulate
  slots_on-accumulate cfg k [] slots = refl
  slots_on-accumulate cfg k ((r, hs) ∷ lists) slots =
      slots_on-accumulate cfg k lists (take_hits num cfg r hs slots)
      ∙ ap (hit_all cfg (hits_on k (tagged lists))) (slots_on-take_hits cfg k r hs slots)
      ∙ sym
          (hit_all-append cfg (hits_on k (tag r hs)) (hits_on k (tagged lists)) (slots_on k slots))
      ∙ ap (λ (ts : List (String × Hit)). hit_all cfg ts (slots_on k slots))
          (sym (hits_on-append k (tag r hs) (tagged lists)))

  pub hit_all_one :
      (cfg : FuseConfig num) (ts : List (String × Hit)) (a : Slot num)
      → hit_all cfg ts (a ∷ []) ≡ absorb_all cfg ts a ∷ []
  hit_all_one cfg [] a = refl
  hit_all_one cfg ((r, h) ∷ ts) a = hit_all_one cfg ts (absorb num cfg r h a)

  pub rrf_score-absorb_all :
      (cfg : FuseConfig num) (ts : List (String × Hit)) (a : Slot num)
      → (absorb_all cfg ts a).rrf_score ≡ total cfg a.rrf_score ts
  rrf_score-absorb_all cfg [] a = refl
  rrf_score-absorb_all cfg ((r, h) ∷ ts) a =
      rrf_score-absorb_all cfg ts (absorb num cfg r h a)
      ∙ ap (λ (x : Number). total cfg x ts) (rrf_score-absorb cfg r h a)

  pub rank_of-absorb_all :
      (cfg : FuseConfig num) (s : String) (ts : List (String × Hit)) (a : Slot num)
      → rank_of s (absorb_all cfg ts a).ranks ≡ either_rank (best_rank s ts) (rank_of s a.ranks)
  rank_of-absorb_all cfg s [] a = refl
  rank_of-absorb_all cfg s ((r, h) ∷ ts) a =
      rank_of-absorb_all cfg s ts (absorb num cfg r h a)
      ∙ ap (λ (o : Option ℕ). either_rank (best_rank s ts) o)
          (ap (rank_of s) (ranks-absorb cfg r h a) ∙ rank_of-set_rank s r h.rank a.ranks)
      ∙ elim (Bool-cases (str_eq r s)) [
        | inl e ↦ rw e (either-better h.rank (best_rank s ts) (rank_of s a.ranks))
        | inr e ↦ rw e refl
      ]
