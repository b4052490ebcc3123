-- ===== src/Store/Clauses.antt =====
-- A WHERE that is put together from optional conditions, condition by condition.
use eidetic_daemon.Prelude.{◌≡◌, refl, arith, Bool, true, false, ◌&&◌, List, ◌++◌, if◌then◌else◌}
use eidetic_daemon.Store.Schema.{Row}
use eidetic_daemon.Store.Read.{Clause, where_, holds, only_if}

-- An optional condition, alone.
abbrev pub part : Bool → Clause → Row → Bool
part b c r = if b then holds c r else true

pub where-only_if :
    (b : Bool) (c : Clause) (rest : List Clause) (r : Row)
    → where_ (only_if b c ++ rest) r ≡ (part b c r && where_ rest r)
where-only_if true c rest r = refl
where-only_if false c rest r = refl

pub where-only_if_last : (b : Bool) (c : Clause) (r : Row) → where_ (only_if b c) r ≡ part b c r
where-only_if_last true c r = ground arith
where-only_if_last false c r = refl
