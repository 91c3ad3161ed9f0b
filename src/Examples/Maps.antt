-- ===== src/Examples/Maps.antt =====
-- The last-writer-wins map of sync.rs at concrete inputs.
use mnemo.Base.{ℕ, ◌≡◌, refl, [], ◌∷◌, Option, none, some}
use mnemo.Base.Order.{codes, text_ord, nat_ord}
use mnemo.Sync.Hlc.{HlcTimestamp, from_parts, hlc_ord}
use mnemo.Sync.LwwMap.{LwwMap, LwwEntry, merge}
use mnemo.Sync.LwwMap.Convergence.{map_merge_semilattice, IsMap, Agree}

abbrev at : ℕ → HlcTimestamp
at wall_ms = from_parts wall_ms 0 (codes "a")

abbrev value_entry : ℕ → HlcTimestamp → LwwEntry ℕ
value_entry v t = record { value = some v; timestamp = t }

abbrev tombstone : HlcTimestamp → LwwEntry ℕ
tombstone t = record { value = none; timestamp = t }

abbrev one : LwwMap ℕ ℕ
one = record { entries = (1, value_entry 10 (at 5)) ∷ (2, tombstone (at 9)) ∷ [] }

abbrev two : LwwMap ℕ ℕ
two = record { entries = (2, value_entry 20 (at 8)) ∷ (3, value_entry 30 (at 4)) ∷ [] }

one-IsMap : IsMap one
unfolding nat_ord
one-IsMap = ((refl, tt), (tt, tt))

two-IsMap : IsMap two
unfolding nat_ord
two-IsMap = ((refl, tt), (tt, tt))

map_merge_semilattice_example :
    (merge (merge one two) one ≡ merge one (merge two one))
    × (merge two two ≡ two)
    × (Agree two one → merge two one ≡ merge one two)
map_merge_semilattice_example = map_merge_semilattice one two one one-IsMap two-IsMap one-IsMap

abbrev written : ℕ → HlcTimestamp → Option ℕ
written k t = some t.wall_ms
