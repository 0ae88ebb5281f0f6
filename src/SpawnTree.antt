-- ===== src/SpawnTree.antt =====
-- The spawn tree of full frames: cilk-l/runtime/full_frame.c, and of scheduler.c the links between
-- siblings, the join counters, `make_child` and `finish_spawn_return_on_user_stack`.
-- The heap maps addresses to full frames. Full frames, stack frames and fibers are numbers, and 0 is
-- the null pointer.
pub mod Siblings
pub mod Push
pub mod Links
pub mod Unlink
pub mod Family
pub mod Return
pub mod Stacks
mod Tests
use cilk_l.Prelude.{
  ℕ, ◌+◌, ◌-◌, ◌*◌, ◌%◌, ◌^◌, Bool, true, false, not, ◌&&◌, ◌||◌, Option, none, some, ltb, ◌==◌,
  if◌then◌else◌, update,
}

pub record Frame : Type 0 where
  pub join_counter : ℕ
  pub parent : ℕ
  pub rightmost_child : ℕ
  pub left_sibling : ℕ
  pub right_sibling : ℕ
  pub call_stack : ℕ
  pub is_call_child : Bool
  pub simulated_stolen : Bool
  pub sync_sp : ℕ
  pub fiber_self : ℕ
  pub fiber_child : ℕ

abbrev pub Heap : Type 0
Heap = ℕ → Frame

unfoldable pub make_full_frame : ℕ → Frame
make_full_frame sf = record {
  join_counter = 0;
  parent = 0;
  rightmost_child = 0;
  left_sibling = 0;
  right_sibling = 0;
  call_stack = sf;
  is_call_child = false;
  simulated_stolen = false;
  sync_sp = 0;
  fiber_self = 0;
  fiber_child = 0;
}

-- `ff->right_sibling = right` and its like.
abbrev pub set_right : ℕ → ℕ → Heap → Heap
set_right ff right h = update h ff (record (h ff) { right_sibling = right })

abbrev pub set_left : ℕ → ℕ → Heap → Heap
set_left ff left h = update h ff (record (h ff) { left_sibling = left })

abbrev pub set_rightmost : ℕ → ℕ → Heap → Heap
set_rightmost ff child h = update h ff (record (h ff) { rightmost_child = child })

unfoldable pub double_link : ℕ → ℕ → Heap → Heap
double_link left_ff right_ff h =
    let h' = if left_ff == 0 then h else set_right left_ff right_ff h in
    if right_ff == 0 then h' else set_left right_ff left_ff h'

unfoldable pub push_child : ℕ → ℕ → Heap → Heap
unfolding double_link
push_child parent_ff child_ff h =
    set_rightmost parent_ff child_ff
      (double_link child_ff 0 (double_link (h parent_ff).rightmost_child child_ff h))

abbrev clear : ℕ → Heap → Heap
clear ff h = set_left ff 0 (set_right ff 0 h)

-- `none` is the failed assertion.
unfoldable pub unlink_child : ℕ → ℕ → Heap → Option Heap
unfolding double_link
unlink_child parent_ff child_ff h =
    let h' = double_link (h child_ff).left_sibling (h child_ff).right_sibling h in
    if (h' child_ff).right_sibling == 0
    then (if (h' parent_ff).rightmost_child == child_ff
        then some (clear child_ff (set_rightmost parent_ff (h' child_ff).left_sibling h'))
        else none)
    else some (clear child_ff h')

unfoldable pub incjoin : Frame → Frame
incjoin ff = record ff { join_counter = ff.join_counter + 1 }

-- The new count, and the frame.
unfoldable pub decjoin : Frame → Option (ℕ × Frame)
decjoin ff =
    if ltb 0 ff.join_counter
    then some (ff.join_counter - 1, record ff { join_counter = ff.join_counter - 1 })
    else none

unfoldable pub simulate_decjoin : Frame → Option ℕ
simulate_decjoin ff = if ltb 0 ff.join_counter then some (ff.join_counter - 1) else none

-- The pointers to stacks are numbers modulo 2 ^ 64; `sp` is the stack pointer that is saved in `sf`.
unfoldable pub put_stack : Frame → ℕ → Frame
put_stack ff sp = record ff { sync_sp = (sp + ff.sync_sp) % 2 ^ 64 }

unfoldable pub take_stack : Frame → ℕ → Frame
take_stack ff sp = record ff { sync_sp = (ff.sync_sp + (2 ^ 64 - sp)) % 2 ^ 64 }

unfoldable pub adjust_stack : Frame → ℕ → Frame
adjust_stack ff size = record ff { sync_sp = (ff.sync_sp + size) % 2 ^ 64 }

-- PLACEHOLDER_FIBER, the pointer -2.
abbrev pub placeholder : ℕ
placeholder = 2 ^ 64 - 2

-- What `make_child` does once the frames are linked: the child gets the parent's fiber, the parent the
-- new one, and the parent has one more to join.
unfoldable pub hand_over : ℕ → ℕ → ℕ → Heap → Heap
unfolding incjoin
hand_over parent_ff child_ff fiber h =
    let h1 =
      update h child_ff (record (h child_ff) {
        is_call_child = fiber == 0;
        fiber_self = (h parent_ff).fiber_self;
      }) in
    let left = if fiber == placeholder then 0 else fiber in
    let h2 = update h1 parent_ff (record (h1 parent_ff) { fiber_self = left }) in
    update h2 parent_ff (incjoin (h2 parent_ff))

-- The new frame is at `child_ff`, and `is_future_parent` says whether the parent's stack frame has
-- CILK_FRAME_FUTURE_PARENT. `none` is the failed assertion.
unfoldable pub make_child : Bool → ℕ → ℕ → ℕ → ℕ → Heap → Option Heap
unfolding make_full_frame
make_child is_future_parent parent_ff child_ff child_sf fiber h =
    let h0 = update h child_ff (make_full_frame child_sf) in
    let h1 = update h0 child_ff (record (h0 child_ff) { parent = parent_ff }) in
    if (h0 parent_ff).call_stack == 0
    then none
    else (if is_future_parent
        then some h0
        else some (hand_over parent_ff child_ff fiber (push_child parent_ff child_ff h1)))

-- `finish_spawn_return_on_user_stack` passes the child's fiber up if this holds.
unfoldable pub is_leftmost : ℕ → ℕ → Heap → Bool
is_leftmost parent_ff child_ff h = not (
    ((parent_ff == 0) || not ((h child_ff).left_sibling == 0))
    || not ((h parent_ff).fiber_child == 0))

-- The frames once the child has given its fiber away, to the parent or to be freed.
unfoldable pub pass_fiber : Bool → ℕ → ℕ → Heap → Heap
pass_fiber leftmost parent_ff child_ff h =
    let h' =
      if leftmost
      then update h parent_ff (record (h parent_ff) { fiber_child = (h child_ff).fiber_self })
      else h in
    update h' child_ff (record (h' child_ff) { fiber_self = 0 })

-- `fiber_to_free` of the worker, and the heap. `none` is a failed assertion.
unfoldable pub finish_spawn_return : ℕ → ℕ → Heap → Option (ℕ × Heap)
finish_spawn_return parent_ff child_ff h =
    let leftmost = is_leftmost parent_ff child_ff h in
    let fiber = (h child_ff).fiber_self in
    let h' = pass_fiber leftmost parent_ff child_ff h in
    let to_free = if leftmost then 0 else fiber in
    if not leftmost && (not (parent_ff == 0) && ((h parent_ff).fiber_child == fiber))
    then none
    else (if parent_ff == 0
        then some (to_free, h')
        else elim (unlink_child parent_ff child_ff h') [ none ↦ none | some g ↦ some (to_free, g) ])

-- Where the map to the left is: the `right_reducer_map` of a frame or its `children_reducer_map`.
pub data LeftMap : Type 0 where
  right_map : ℕ → LeftMap
  children_map : ℕ → LeftMap

unfoldable pub compute_left_ptrs_for_spawn_return : ℕ → Heap → LeftMap
compute_left_ptrs_for_spawn_return ff h =
    if (h ff).left_sibling == 0 then children_map (h ff).parent else right_map (h ff).left_sibling

-- `none` is the failed assertion.
unfoldable pub compute_left_ptrs_for_sync : ℕ → Heap → Option LeftMap
compute_left_ptrs_for_sync ff h =
    let c = (h ff).rightmost_child in
    if c == 0
    then some (children_map ff)
    else (if (h c).parent == ff then some (right_map c) else none)
