-- ===== src/Store/Unique.antt =====
-- The uniqueness of job ids among the cells of src/state/mod.rs.
use vm_cell_manager.Prelude.{
  ◌≡◌, ◌↔◌, sym, refl, true, false, nat_eq, Option, none, some, List, [], ◌∷◌, contains, Memᴰ, All,
  Result, ok, inl, inr, reject-eq-ok, reject-passes, any-mem, ◌==◌, eq_of_test, eq_self, Bool-cases,
  Bool, ◌||◌, arith,
}
use vm_cell_manager.Host.{Uuid}
use vm_cell_manager.Cell.{CellRecord, JobCorrelation}
use vm_cell_manager.Engine.Errors.{StateError}
use vm_cell_manager.Store.{insert_job, validate_unique_cell_job_ids}

abbrev with_job : Option JobCorrelation → List Uuid → List Uuid
with_job none ids = ids
with_job (some job) ids = job.job_id ∷ ids

-- The ids of the jobs of those records that have one.
pub job_ids : List CellRecord → List Uuid
job_ids [] = []
job_ids (r ∷ cells) = with_job r.job (job_ids cells)

-- No id comes twice.
pub IsDistinct : List Uuid → Type 0
IsDistinct [] = Unit {0}
IsDistinct (id ∷ ids) = (¬ (Memᴰ id ids)) × IsDistinct ids

abbrev Avoids : List Uuid → List Uuid → Type 0
Avoids seen ids = All (λ id. ¬ (Memᴰ id seen)) ids

Avoids-cons :
    (id : Uuid) (seen ids : List Uuid) → Avoids seen ids → ¬ (Memᴰ id ids) → Avoids (id ∷ seen) ids
Avoids-cons id seen [] a n = tt
Avoids-cons id seen (x ∷ ids) a n = (
  λ m. elim m [ Memᴰ.head e ↦ n (Memᴰ.head (sym e)) | Memᴰ.tail t ↦ a.0 t ],
  Avoids-cons id seen ids a.1 (λ m. n (Memᴰ.tail m)),
)

Avoids-tail :
    (id : Uuid) (seen ids : List Uuid)
    → Avoids (id ∷ seen) ids
    → Avoids seen ids × (¬ (Memᴰ id ids))
Avoids-tail id seen [] a = (tt, λ m. elim m [ ])
Avoids-tail id seen (x ∷ ids) a =
    let (rest, n) = Avoids-tail id seen ids a.1 in
    (
      (λ m. a.0 (Memᴰ.tail m), rest),
      λ m. elim m [ Memᴰ.head e ↦ a.0 (Memᴰ.head (sym e)) | Memᴰ.tail t ↦ n t ],
    )

contains-mem : (seen : List Uuid) (id : Uuid) → contains seen id ≡ true → Memᴰ id seen
contains-mem seen id h = let (x, m, e) = any-mem (λ x. x == id) seen h in rw (← eq_of_test x id e) m

mem-contains : (seen : List Uuid) (id : Uuid) → Memᴰ id seen → contains seen id ≡ true
mem-contains [] id m = elim m [ ]
mem-contains (x ∷ seen) id (Memᴰ.head e) =
    let t : (x == id) ≡ true = rw e (eq_self x) in or_left _ _ t
  where
    or_left : (a b : Bool) → a ≡ true → (a || b) ≡ true
    or_left a b p = ground arith
mem-contains (x ∷ seen) id (Memᴰ.tail m) = or_right _ _ (mem-contains seen id m)
  where
    or_right : (a b : Bool) → b ≡ true → (a || b) ≡ true
    or_right a b p = ground arith

not_contains : (seen : List Uuid) (id : Uuid) → ¬ (Memᴰ id seen) → contains seen id ≡ false
not_contains seen id n = elim (Bool-cases (contains seen id)) [
  | inl e ↦ absurd (n (contains-mem seen id e))
  | inr e ↦ e
]

Passes : List Uuid → List Uuid → Type 0
Passes seen ids = Avoids seen ids × IsDistinct ids

insert_job_lem :
    (seen : List Uuid) (job : Option JobCorrelation) (ids : List Uuid)
    (rest : List Uuid → Result StateError (Unit {0}))
    → ((keys : List Uuid) → (rest keys ≡ ok tt) ↔ Passes keys ids)
    → (insert_job seen job rest ≡ ok tt) ↔ Passes seen (with_job job ids)
unfolding Passes IsDistinct
insert_job_lem seen none ids rest w = w seen
insert_job_lem seen (some job) ids rest w = (
  λ h.
      let (c, h1) = reject-eq-ok (contains seen job.job_id) _ _ h in
      let (a, d) = (w (job.job_id ∷ seen)).0 h1 in
      let (b, n) = Avoids-tail job.job_id seen ids a in
      ((λ m. let t = mem-contains seen job.job_id m in cc, b), (n, d)),
  λ p.
      reject-passes (contains seen job.job_id) _ _ (not_contains seen job.job_id p.0.0)
        ((w (job.job_id ∷ seen)).1 (Avoids-cons job.job_id seen ids p.0.1 p.1.0, p.1.1)),
)

unique-Passes :
    (seen : List Uuid) (cells : List CellRecord)
    → (validate_unique_cell_job_ids seen cells ≡ ok tt) ↔ Passes seen (job_ids cells)
unfolding validate_unique_cell_job_ids job_ids Passes IsDistinct
unique-Passes seen [] = (λ h. (tt, tt), λ p. refl)
unique-Passes seen (r ∷ cells) =
    insert_job_lem seen r.job (job_ids cells) (λ keys. validate_unique_cell_job_ids keys cells)
      (λ keys. unique-Passes keys cells)

Avoids-nil : (ids : List Uuid) → Avoids [] ids
Avoids-nil [] = tt
Avoids-nil (id ∷ ids) = (λ m. elim m [ ], Avoids-nil ids)

-- The check of job ids accepts a list of cells exactly when no id comes twice among the ids of
-- their jobs.
pub validate_unique_cell_job_ids_iff :
    (cells : List CellRecord)
    → (validate_unique_cell_job_ids [] cells ≡ ok tt) ↔ IsDistinct (job_ids cells)
unfolding Passes
validate_unique_cell_job_ids_iff cells =
    let (f, g) = unique-Passes [] cells in (λ h. (f h).1, λ d. g (Avoids-nil (job_ids cells), d))
