-- ===== src/MysqlConn/Memory/Copies.antt =====
-- mysqlpool/mysqlconn.h and mysqlpool/mysqlconn.cpp: the copy that `operator[]` of a result returns
-- deletes the fields of the row that the result still has.
use calcsig.Common.{
  ℕ, zero, suc, ◌≡◌, refl, ap, ◌∙◌, subst, Bool, true, false, List, [], ◌∷◌, get_elem?, set, Option,
  none, some, Option-cases, inl, inr,
}
use calcsig.MysqlConn.Memory.{RowObject, delete, delete_all, destroy_row, delete_row, free_rows}

abbrev pub DeadAt : List Bool → ℕ → Type 0
DeadAt heap p = get_elem? heap p ≡ some false

set-dead : (heap : List Bool) (p : ℕ) → get_elem? heap p ≡ some true → DeadAt (set heap p false) p
set-dead [] p h = cc h
set-dead (b ∷ bs) zero h = refl
set-dead (b ∷ bs) (suc p) h = set-dead bs p h

set-stays : (heap : List Bool) (p q : ℕ) → DeadAt heap q → DeadAt (set heap p false) q
set-stays [] p q h = cc h
set-stays (b ∷ bs) zero zero h = refl
set-stays (b ∷ bs) zero (suc q) h = h
set-stays (b ∷ bs) (suc p) zero h = h
set-stays (b ∷ bs) (suc p) (suc q) h = set-stays bs p q h

-- What holds of the heap behind a step, if the step is one that the program may do.
abbrev After : (List Bool → Type 0) → Option (List Bool) → Type 0
After P none = Unit
After P (some h) = P h

delete-After :
    (p : ℕ) (heap : List Bool)
    → After (λ h. DeadAt h p × ((q : ℕ) → DeadAt heap q → DeadAt h q)) (delete p heap)
unfolding delete
delete-After p heap = elim (Option-cases (get_elem? heap p)) [
  | inl e ↦ rw (e, delete) tt
  | inr (true, e) ↦ rw (e, delete) (set-dead heap p e, set-stays heap p)
  | inr (false, e) ↦ rw (e, delete) tt
]

delete_dead : (p : ℕ) (heap : List Bool) → DeadAt heap p → delete p heap ≡ none
unfolding delete
delete_dead p heap h = rw (h, delete)

-- What the heap was before and is after deletions.
abbrev Deader : List Bool → Option (List Bool) → Type 0
Deader heap o = After (λ h. (q : ℕ) → DeadAt heap q → DeadAt h q) o

Deader-trans :
    (heap h : List Bool) (o : Option (List Bool))
    → ((q : ℕ) → DeadAt heap q → DeadAt h q)
    → Deader h o
    → Deader heap o
Deader-trans heap h none f g = tt
Deader-trans heap h (some k) f g = λ q d. g q (f q d)

-- One deletion after another.
Deader-then :
    (heap : List Bool) (o : Option (List Bool)) (f : List Bool → Option (List Bool))
    → Deader heap o
    → ((h : List Bool) → Deader h (f h))
    → Deader heap (elim o [ none ↦ none | some h ↦ f h ])
Deader-then heap none f a g = tt
Deader-then heap (some h) f a g = Deader-trans heap h (f h) a (g h)

delete-Deader : (p : ℕ) (heap : List Bool) → Deader heap (delete p heap)
delete-Deader p heap = second (delete p heap) (delete-After p heap)
  where
    second :
        (o : Option (List Bool))
        → After (λ h. DeadAt h p × ((q : ℕ) → DeadAt heap q → DeadAt h q)) o
        → Deader heap o
    second none a = tt
    second (some h) a = a.1

delete_all-Deader : (ps : List ℕ) (heap : List Bool) → Deader heap (delete_all ps heap)
unfolding delete_all
delete_all-Deader [] heap = λ q d. d
delete_all-Deader (p ∷ ps) heap =
    Deader-then heap (delete p heap) (delete_all ps) (delete-Deader p heap) (delete_all-Deader ps)

delete_row-Deader : (r : RowObject) (heap : List Bool) → Deader heap (delete_row r heap)
unfolding delete_row destroy_row
delete_row-Deader r heap =
    Deader-then heap (delete_all r.m_vfields heap) (delete r.self)
      (delete_all-Deader r.m_vfields heap) (delete-Deader r.self)

-- After the destructor of a copy the first field of the row is gone.
pub destroy_row-dead :
    (r : RowObject) (heap h : List Bool) (q : ℕ) (qs : List ℕ)
    → r.m_vfields ≡ q ∷ qs
    → destroy_row r heap ≡ some h
    → DeadAt h q
unfolding destroy_row delete_all
destroy_row-dead r heap h q qs fields e = elim (Option-cases (delete q heap)) [
  | inl none_left ↦ cc (rw (fields, none_left, delete_all) at e)
  | inr (k, step) ↦
      let gone = subst (After _) step (delete-After q heap) in
      let rest = rw (fields, step, delete_all) at e in
      subst (Deader k) rest (delete_all-Deader qs k) q gone.0
]

-- A row that has lost a field cannot be deleted.
delete_row-dead :
    (r : RowObject) (heap : List Bool) (q : ℕ) (qs : List ℕ)
    → r.m_vfields ≡ q ∷ qs
    → DeadAt heap q
    → delete_row r heap ≡ none
unfolding delete_row destroy_row delete_all
delete_row-dead r heap q qs fields d =
    rw (fields, delete_dead q heap d, delete_row, delete_all) refl

pub free_rows-dead :
    (rows : List RowObject) (heap : List Bool) (i : ℕ) (r : RowObject) (q : ℕ) (qs : List ℕ)
    → get_elem? rows i ≡ some r
    → r.m_vfields ≡ q ∷ qs
    → DeadAt heap q
    → free_rows rows heap ≡ none
unfolding free_rows
free_rows-dead [] heap i r q qs e fields d = cc e
free_rows-dead (s ∷ rows) heap zero r q qs e fields d =
    let same : delete_row s heap ≡ none =
      delete_row-dead s heap q qs
        (ap (λ (o : Option RowObject). elim o [ none ↦ [] | some x ↦ x.m_vfields ]) e ∙ fields) d in
    rw (same, free_rows) refl
free_rows-dead (s ∷ rows) heap (suc i) r q qs e fields d = elim (Option-cases (delete_row s heap)) [
  | inl fault ↦ rw (fault, free_rows) refl
  | inr (h, step) ↦
      let later = subst (Deader heap) step (delete_row-Deader s heap) q d in
      rw (step, free_rows) (free_rows-dead rows h i r q qs e fields later)
]
