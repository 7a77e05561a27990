-- ===== src/Package/Promote.antt =====
-- src/package_installer.c, lines 634-687: the promotion of the unpacked package by the system.
pub mod Balance
use vitacompanion_vitadeck.Prelude.{Bool, not, ◌&&◌, List, ◌∷◌, if◌then◌else◌, ℤ, is_negative}

-- The calls of the system.
pub data Call : Type 0 where
  load_paf unload_paf load_promoter unload_promoter init_promoter promote exit_promoter : Call

-- What the system answers to a call after the calls made before it, the latest first.
abbrev pub System : Type 0
System = List Call → Call → ℤ

-- `if (result >= 0 && later < 0) result = later;`
abbrev pub first_error : ℤ → ℤ → ℤ
first_error result later = if not (is_negative result) && is_negative later then later else result

-- The middle of `promote_stage`, between `scePromoterUtilityInit` and the unloading.
pub run_promoter : System → List Call → ℤ × List Call
run_promoter system calls =
    let result = system calls init_promoter in
    let calls = init_promoter ∷ calls in
    if is_negative result
    then (result, calls)
    else let result = system calls promote in
      let calls = promote ∷ calls in
      (first_error result (system calls exit_promoter), exit_promoter ∷ calls)

pub promote_stage : System → List Call → ℤ × List Call
promote_stage system calls =
    let result = system calls load_paf in
    let calls = load_paf ∷ calls in
    if is_negative result
    then (result, calls)
    else let result = system calls load_promoter in
      let calls = load_promoter ∷ calls in
      if is_negative result
      then (result, unload_paf ∷ calls)
      else let (result, calls) = run_promoter system calls in
        let result = first_error result (system calls unload_promoter) in
        let calls = unload_promoter ∷ calls in
        (first_error result (system calls unload_paf), unload_paf ∷ calls)
