-- ===== src/Package/Promote/Balance.antt =====
-- What the promotion opens it closes, and when it reports success.
use vitacompanion_vitadeck.Prelude.{
  ◌≡◌, ◌↔◌, Bool, true, false, not, ◌&&◌, List, [], ◌∷◌, if◌then◌else◌, is_negative, arith,
}
use vitacompanion_vitadeck.Package.Promote.{
  Call, load_paf, unload_paf, load_promoter, unload_promoter, init_promoter, promote, exit_promoter,
  System, run_promoter, promote_stage,
}

-- The parts of the system that a call opens or closes.
pub data Part : Type 0 where
  paf_module promoter_module session : Part

abbrev drop_last : List Part → List Part
drop_last [] = []
drop_last (p ∷ parts) = parts

abbrev is_session : List Part → Bool
is_session (session ∷ parts) = true
is_session _ = false

abbrev is_promoter : List Part → Bool
is_promoter (promoter_module ∷ parts) = true
is_promoter _ = false

abbrev is_paf : List Part → Bool
is_paf (paf_module ∷ parts) = true
is_paf _ = false

-- The parts that are open after the calls, the last opened first.
pub open_parts : System → List Call → List Part
open_parts system [] = []
open_parts system (load_paf ∷ before) =
    let parts = open_parts system before in
    if is_negative (system before load_paf) then parts else paf_module ∷ parts
open_parts system (load_promoter ∷ before) =
    let parts = open_parts system before in
    if is_negative (system before load_promoter) then parts else promoter_module ∷ parts
open_parts system (init_promoter ∷ before) =
    let parts = open_parts system before in
    if is_negative (system before init_promoter) then parts else session ∷ parts
open_parts system (promote ∷ before) = open_parts system before
open_parts system (_ ∷ before) = drop_last (open_parts system before)

-- Whether each call that closes a part closes the one opened last, and each promotion has a session.
pub in_order : System → List Call → Bool
unfolding open_parts
in_order system [] = true
in_order system (promote ∷ before) = in_order system before && is_session (open_parts system before)
in_order system (exit_promoter ∷ before) =
    in_order system before && is_session (open_parts system before)
in_order system (unload_promoter ∷ before) =
    in_order system before && is_promoter (open_parts system before)
in_order system (unload_paf ∷ before) = in_order system before && is_paf (open_parts system before)
in_order system (_ ∷ before) = in_order system before

pub all_succeeded : System → List Call → Bool
all_succeeded system [] = true
all_succeeded system (call ∷ before) =
    not (is_negative (system before call)) && all_succeeded system before

-- Whatever the system answers, the promotion closes every part it opened, the last opened first,
-- and promotes only inside a session.
pub promote_stage-balanced :
    (system : System)
    → (open_parts system (promote_stage system []).1 ≡ [])
      × (in_order system (promote_stage system []).1 ≡ true)
unfolding promote_stage run_promoter open_parts in_order
promote_stage-balanced system = (ground arith, ground arith)

-- The promotion reports success exactly when all the calls it made succeeded.
pub promote_stage-iff-all_succeeded :
    (system : System)
    → (is_negative (promote_stage system []).0 ≡ false)
      ↔ (all_succeeded system (promote_stage system []).1 ≡ true)
unfolding promote_stage run_promoter all_succeeded
promote_stage-iff-all_succeeded system = ground arith
