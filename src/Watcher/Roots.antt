-- ===== src/Watcher/Roots.antt =====
-- src/patchharbor_watcher/scheduling.py: the loops over the roots of a schedule, as lookups and
-- predicates see them.
use patch_harbor.Base.{
  String, ◌≡◌, refl, true, false, [], ◌∷◌, arith, if◌then◌else◌, string_eq, lookup, On, IsUnique,
  codes, before_or_equal,
}
use mathlib.Core.Option
use patch_harbor.Watcher.Schedule.{PendingRoot, Roots, on_roots, insert_root, sort_roots}

pub lookup-on_roots :
    (d : String) (f : PendingRoot → PendingRoot) (rs : Roots)
    → lookup d (on_roots f rs) ≡ Option.map f (lookup d rs)
unfolding on_roots lookup
lookup-on_roots d f [] = refl
lookup-on_roots d f ((k, r) ∷ rs) = ground (arith, lookup-on_roots d f rs)

pub IsUnique-on_roots :
    (f : PendingRoot → PendingRoot) (rs : Roots) → IsUnique rs → IsUnique (on_roots f rs)
unfolding on_roots
IsUnique-on_roots f [] h = tt
IsUnique-on_roots f ((k, r) ∷ rs) h =
    (ground (arith, h.0, lookup-on_roots k f rs), IsUnique-on_roots f rs h.1)

pub On-on_roots {ℓ κ} :
    (P : String → PendingRoot → Type ℓ) (Q : String → PendingRoot → Type κ)
    (f : PendingRoot → PendingRoot)
    → ((d : String) (r : PendingRoot) → P d r → Q d (f r))
    → (rs : Roots) → On P rs
    → On Q (on_roots f rs)
unfolding on_roots
On-on_roots P Q f step [] h = tt
On-on_roots P Q f step ((d, r) ∷ rs) h = (step d r h.0, On-on_roots P Q f step rs h.1)

On-insert_root {ℓ} :
    (P : String → PendingRoot → Type ℓ) (d : String) (r : PendingRoot) (rs : Roots)
    → P d r
    → On P rs
    → On P (insert_root (d, r) rs)
unfolding insert_root
On-insert_root P d r [] p h = (p, tt)
On-insert_root P d r ((k, q) ∷ rs) p h =
    elim (before_or_equal (codes d) (codes k))
      as (λ b. On P (if b then (d, r) ∷ (k, q) ∷ rs else (k, q) ∷ insert_root (d, r) rs)) [
        | true ↦ (p, h)
        | false ↦ (h.0, On-insert_root P d r rs p h.1)
      ]

pub On-sort_roots {ℓ} :
    (P : String → PendingRoot → Type ℓ) (rs : Roots) → On P rs → On P (sort_roots rs)
unfolding sort_roots
On-sort_roots P [] h = tt
On-sort_roots P ((d, r) ∷ rs) h = On-insert_root P d r (sort_roots rs) h.0 (On-sort_roots P rs h.1)
