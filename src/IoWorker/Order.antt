-- ===== src/IoWorker/Order.antt =====
-- The operations of one kind on one file are performed in the order in which they were asked for.
use cilk_l.Prelude.{
  ℕ, ◌≡◌, refl, ap, ap₂, sym, ◌∙◌, inl, inr, Bool, false, not, ◌&&◌, List, [], ◌∷◌, ◌++◌, map,
  arith, ◌==◌, Bool-cases,
}
use mathlib.Core.Path.{subst}
use mathlib.Core.List.{append-nil, append_assoc}
use cilk_l.IoWorker.{
  Kind, same_kind, Op, Worker, perform_all, handle_event, take_op, clear_ready, is_empty, Event,
  triggered, popped, end_of_round, Runs, new_worker, start, trigger, pop, finish,
}
use cilk_l.IoWorker.Requests.{
  futs, popped_ops, AllOf, futs-++, popped_ops-++, same_kind-true, futs-AllOf, futs-other,
  assign_self, still_some, AllOf-snoc, map_snoc, is_empty-snoc, nil_of_empty, by_key,
}
use cilk_l.IoWorker.Keeping.{Keeps}

module _ {World : Type 0} (perform : Op → World → Bool × Op × World) (keeps : Keeps perform) where
  -- Of the operations that wait, some are finished and the others wait on, in the same order.
  perform_all_lem :
      (k : Kind) (fd : ℕ) (ops : List Op) (w : World)
      → AllOf k fd ops
      → let (finished, left, w') = perform_all perform ops w in
        AllOf k fd finished
        × AllOf k fd left
        × (map (λ op. op.fut) finished ++ map (λ op. op.fut) left ≡ map (λ op. op.fut) ops)
  unfolding perform_all Keeps
  perform_all_lem k fd [] w all = (tt, tt, refl)
  perform_all_lem k fd (op ∷ ops) w (kind, file, all) =
      ground (arith, perform_all_lem k fd ops ((perform op w).2) all, keeps op w, kind, file, all)

  record Ordered (asked : List Op) (s : Worker World) : Type 0 where
    own : (k : Kind) (fd : ℕ) → AllOf k fd (s.blocked_ops k fd)
    flag : (k : Kind) (fd : ℕ) → s.blocked k fd ≡ not (is_empty (s.blocked_ops k fd))
    order :
        (k : Kind) (fd : ℕ)
        → futs k fd asked ≡ futs k fd s.completed ++ map (λ op. op.fut) (s.blocked_ops k fd)

  -- One key of the maps changes, and the operations `f` on it are completed.
  change :
      (k : Kind) (fd : ℕ) (q f x : List Op) {asked : List Op} {s t : Worker World}
      → Ordered asked s
      → AllOf k fd q
      → AllOf k fd f
      → AllOf k fd x
      → (map (λ op. op.fut) f ++ map (λ op. op.fut) q
          ≡ map (λ op. op.fut) (s.blocked_ops k fd) ++ map (λ op. op.fut) x)
      → (t.completed ≡ s.completed ++ f)
      → (t.blocked_ops k fd ≡ q)
      → (t.blocked k fd ≡ not (is_empty q))
      → ((j : Kind) (gd : ℕ)
          → same_kind k j && (fd == gd) ≡ false
          → (t.blocked_ops j gd ≡ s.blocked_ops j gd) × (t.blocked j gd ≡ s.blocked j gd))
      → Ordered (asked ++ x) t
  change k fd q f x {asked} {s} {t} o all_q all_f all_x e done q_at b_at rest = record {
    own =
        by_key (λ j gd. AllOf j gd (t.blocked_ops j gd)) k fd (subst (AllOf k fd) (sym q_at) all_q)
          (λ j gd other. subst (AllOf j gd) (sym ((rest j gd other).0)) (o.own j gd));
    flag =
        by_key (λ j gd. t.blocked j gd ≡ not (is_empty (t.blocked_ops j gd))) k fd
          (ground (arith, q_at, b_at)) (λ j gd other. ground (arith, rest j gd other, o.flag j gd));
    order =
        by_key
          (λ j gd.
            futs j gd (asked ++ x)
            ≡ futs j gd t.completed ++ map (λ op. op.fut) (t.blocked_ops j gd))
          k fd
          (futs-++ k fd asked x
            ∙ ap₂ (λ l r. l ++ r) (o.order k fd) (futs-AllOf k fd x all_x)
            ∙ append_assoc (futs k fd s.completed) _ _
            ∙ ap (λ l. futs k fd s.completed ++ l) (sym e)
            ∙ sym (append_assoc (futs k fd s.completed) _ _)
            ∙ ap₂ (λ l r. l ++ map (λ op. op.fut) r)
                (sym (
                  ap (futs k fd) done
                  ∙ futs-++ k fd s.completed f
                  ∙ ap (λ l. futs k fd s.completed ++ l) (futs-AllOf k fd f all_f)))
                (sym q_at))
          (λ j gd other.
            futs-++ j gd asked x
            ∙ ap (λ r. futs j gd asked ++ r) (futs-other k j fd gd x all_x other)
            ∙ append-nil (futs j gd asked)
            ∙ o.order j gd
            ∙ ap₂ (λ l r. l ++ map (λ op. op.fut) r)
                (sym (
                  ap (futs j gd) done
                  ∙ futs-++ j gd s.completed f
                  ∙ ap (λ l. futs j gd s.completed ++ l) (futs-other k j fd gd f all_f other)
                  ∙ append-nil (futs j gd s.completed)))
                (sym ((rest j gd other).0)));
  }

  module _ {asked : List Op} {s : Worker World} (o : Ordered asked s) where
    handle_event-Ordered : (k : Kind) (fd : ℕ) → Ordered asked (handle_event perform k fd s)
    unfolding handle_event
    handle_event-Ordered k fd =
        let (all_finished, all_left, same) =
          perform_all_lem k fd (s.blocked_ops k fd) s.world (o.own k fd) in
        subst (λ a. Ordered a (handle_event perform k fd s)) (append-nil asked)
          (change k fd _ _ [] o all_left all_finished tt (same ∙ sym (append-nil _)) refl
            (assign_self s.blocked_ops k fd _)
            (ground
              (arith, o.flag k fd, still_some (s.blocked_ops k fd) _ _ same, same_kind-true k))
            (λ j gd other. (ground (arith, other), ground (arith, other))))

    take_op-Ordered : (op : Op) → Ordered (asked ++ op ∷ []) (take_op perform op s)
    unfolding take_op Keeps
    take_op-Ordered op = elim (Bool-cases (s.blocked op.kind op.fildes)) [
      | inl waits ↦
          change op.kind op.fildes (waiting ++ op ∷ []) [] (op ∷ []) o
            (AllOf-snoc op.kind op.fildes waiting op (o.own op.kind op.fildes) refl refl) tt
            (refl, refl, tt) (map_snoc waiting op op refl)
            (ground (arith, waits, append-nil s.completed))
            (ground (arith, waits, same_kind-true op.kind))
            (ground (arith, waits, is_empty-snoc waiting op))
            (λ j gd other. ground (arith, waits, other))
      | inr free ↦
          let nothing : s.blocked_ops op.kind op.fildes ≡ [] =
            nil_of_empty _ (ground (arith, free, o.flag op.kind op.fildes)) in
          elim (Bool-cases (perform op s.world).0) [
            | inl blocks ↦
                change op.kind op.fildes (waiting ++ op' ∷ []) [] (op ∷ []) o
                  (AllOf-snoc op.kind op.fildes waiting op' (o.own op.kind op.fildes)
                    (keeps op s.world).0 (keeps op s.world).1)
                  tt (refl, refl, tt) (map_snoc waiting op' op ((keeps op s.world).2))
                  (ground (arith, free, blocks, append-nil s.completed))
                  (ground (arith, free, blocks, same_kind-true op.kind))
                  (ground (arith, free, blocks, same_kind-true op.kind, is_empty-snoc waiting op'))
                  (λ j gd other. ground (arith, free, blocks, other))
            | inr goes ↦
                change op.kind op.fildes [] (op' ∷ []) (op ∷ []) o tt
                  ((keeps op s.world).0, (keeps op s.world).1, tt) (refl, refl, tt)
                  (ground (arith, nothing, keeps op s.world)) (ground (arith, free, goes))
                  (ground (arith, free, goes, nothing)) (ground (arith, free, goes))
                  (λ j gd other. ground (arith, free, goes))
          ]
    ]
      where
        waiting : List Op
        waiting = s.blocked_ops op.kind op.fildes

        op' : Op
        op' = (perform op s.world).1

    clear_ready-Ordered : Ordered asked (clear_ready perform s)
    unfolding clear_ready
    clear_ready-Ordered = record { own = o.own; flag = o.flag; order = o.order }

  Runs-Ordered :
      (w : World) {events : List Event} {t : Worker World}
      → Runs perform (new_worker w) events t
      → Ordered (popped_ops events) t
  Runs-Ordered w start = record { own = λ k fd. tt; flag = λ k fd. refl; order = λ k fd. refl }
  Runs-Ordered w (trigger {events} {t} k fd r watched) =
      subst (λ a. Ordered a (handle_event perform k fd t))
        (sym (popped_ops-++ events (triggered k fd ∷ []) ∙ append-nil _))
        (handle_event-Ordered (Runs-Ordered w r) k fd)
  Runs-Ordered w (pop {events} {t} op r) =
      subst (λ a. Ordered a (take_op perform op t)) (sym (popped_ops-++ events (popped op ∷ [])))
        (take_op-Ordered (Runs-Ordered w r) op)
  Runs-Ordered w (finish {events} {t} r) =
      subst (λ a. Ordered a (clear_ready perform t))
        (sym (popped_ops-++ events (end_of_round ∷ []) ∙ append-nil _))
        (clear_ready-Ordered (Runs-Ordered w r))

-- For any way to perform an operation that does not change its kind, its file and its future, and
-- whatever `epoll_wait` reports: of the reads on a file, and of the writes on it, those that have been
-- taken from the queue are, in this order, those that are finished and those that wait. None is lost,
-- finished twice or overtaken by a later one, and a file is in the set of the blocked ones exactly if an
-- operation waits.
pub performed_in_order :
    {World : Type 0} (perform : Op → World → Bool × Op × World) (w : World) (events : List Event)
    (t : Worker World) (k : Kind) (fd : ℕ)
    → Keeps perform
    → Runs perform (new_worker w) events t
    → (futs k fd (popped_ops events)
        ≡ futs k fd t.completed ++ map (λ op. op.fut) (t.blocked_ops k fd))
      × (t.blocked k fd ≡ not (is_empty (t.blocked_ops k fd)))
performed_in_order perform w events t k fd keeps r =
    let o = Runs-Ordered perform keeps w r in (o.order k fd, o.flag k fd)
