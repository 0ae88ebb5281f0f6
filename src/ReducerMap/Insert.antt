-- ===== src/ReducerMap/Insert.antt =====
-- `insert_no_rehash` adds one element to a sound map and changes no other.
use mathlib.Core.Path.{subst}
use cilk_l.Prelude.{
  ℕ, zero, suc, ◌+◌, ◌≤◌, ◌<◌, ◌≡◌, ◌≢◌, refl, sym, ap, ◌∙◌, Option, none, some, [], ◌∷◌, ◌++◌,
  length, arith, lt→ltb, ne→false, ◌==◌, if◌then◌else◌, length-append, update, update_self,
  update_ne, ℕ_discrete, ok,
}
use cilk_l.ReducerMap.{Elem, Bucket, ReducerMap, Place, hashfun, insert_no_rehash, lookup}
use cilk_l.ReducerMap.Hash.{hashfun-lt}
use cilk_l.ReducerMap.Buckets.{IsBucket, contents, IsBucket?, used, grow-Grown}
use cilk_l.ReducerMap.Table.{
  entry, occurs, place_of, AllAt, gather, home, element, IsMap, IsMap-pos, entry-append,
  occurs-entry, occurs-append, AllAt-append, lookup-place, place_of-append,
}

-- What holds of every bucket holds after a write to one, if it holds of what is written.
pub update-all :
    (P : ℕ → Option Bucket → Type 0) (bs : ℕ → Option Bucket) (i : ℕ) (b : Option Bucket)
    → P i b
    → ((j : ℕ) → P j (bs j))
    → (j : ℕ) → P j (update bs i b j)
update-all P bs i b here there j = elim (ℕ_discrete i j) [
  | yes same ↦ subst (λ k. P k (update bs i b k)) same (rw (update_self bs i b) here)
  | no other ↦ rw (update_ne bs i j b other) (there j)
]

-- A write below the buckets that are gathered does not show.
pub gather-update_below :
    (bs : ℕ → Option Bucket) (i j n : ℕ) (b : Option Bucket)
    → i < j
    → gather (update bs i b) j n ≡ gather bs j n
unfolding gather
gather-update_below bs i j zero b lt = refl
gather-update_below bs i j (suc n) b lt =
    rw (update_ne bs i j b (omega arith), gather-update_below bs i (suc j) n b (omega arith)) refl

-- One element more in a bucket is one more in all.
pub gather-update :
    (bs : ℕ → Option Bucket) (i j n : ℕ) (b : Option Bucket)
    → j ≤ i
    → i < j + n
    → length (gather (update bs i b) j n) + length (contents (bs i))
      ≡ length (gather bs j n) + length (contents b)
unfolding gather
gather-update bs i j zero b le lt = absurd (omega arith)
gather-update bs i j (suc n) b le lt = elim (ℕ_discrete i j) [
  | yes same ↦
      let here : contents (update bs i b j) ≡ contents b =
        ap (λ k. contents (update bs i b k)) (sym same) ∙ ap contents (update_self bs i b) in
      let old : contents (bs i) ≡ contents (bs j) = ap (λ k. contents (bs k)) same in
      rw (here, old, gather-update_below bs i (suc j) n b (omega arith))
        (omega (
          arith,
          length-append (contents b) (gather bs (suc j) n),
          length-append (contents (bs j)) (gather bs (suc j) n),
        ))
  | no other ↦ rw (update_ne bs i j b other) (
      omega (
        arith,
        length-append (contents (bs j)) (gather (update bs i b) (suc j) n),
        length-append (contents (bs j)) (gather bs (suc j) n),
        gather-update bs i (suc j) n b (omega arith) (omega arith),
      ))
]

-- What an insertion does.
pub record Inserted (e : Elem) (h h' : ReducerMap) (p : Place) : Type 0 where
  pub sound : IsMap h'
  pub holds : (k : ℕ) → element h' k ≡ (if e.key == k then some e else element h k)
  pub located : lookup e.key h' ≡ ok (some p)
  pub shown : p.elem ≡ e
  pub grown : h'.nelem ≡ suc h.nelem
  pub merging : h'.merging ≡ h.merging
  pub is_leftmost : h'.is_leftmost ≡ h.is_leftmost

module _ (e : Elem) (h : ReducerMap) (m : IsMap h) (key : e.key ≢ 0) (view : e.view ≢ 0)
    (fresh : element h e.key ≡ none) where
  abbrev spot : ℕ
  spot = hashfun h.nbuckets e.key

  abbrev stored : Bucket → ReducerMap
  stored b = record h { buckets = update h.buckets spot (some b); nelem = h.nelem + 1 }

  spot-lt : spot < h.nbuckets
  spot-lt = hashfun-lt h.nbuckets e.key (IsMap-pos h m)

  fresh_home : entry e.key (home h e.key) ≡ none
  unfolding element
  fresh_home = fresh

  module _ (b : Bucket) (wf : IsBucket b) (more : used b.el ≡ home h e.key ++ e ∷ []) where
    stored-AllAt : AllAt h.nbuckets spot (contents (some b))
    stored-AllAt =
        rw more (AllAt-append h.nbuckets spot (home h e.key) e (m.placed spot) key view refl)

    stored-once : (k : ℕ) → occurs k (contents (some b)) ≤ 1
    unfolding occurs
    stored-once k =
        let none_yet = occurs-entry e.key (home h e.key) fresh_home in
        rw (more, occurs-append k (home h e.key) (e ∷ []))
          (elim (ℕ_discrete e.key k) [
            | yes same ↦
                let zero_of : occurs k (home h e.key) ≡ 0 =
                  ap (λ j. occurs j (home h e.key)) (sym same) ∙ none_yet in
                ground arith
            | no other ↦ ground (arith, m.once spot k)
          ])

    stored-IsMap : IsMap (stored b)
    stored-IsMap = record {
      log = m.log;
      power = m.power;
      sound = update-all (λ i. IsBucket?) h.buckets spot (some b) wf m.sound;
      placed =
          update-all (λ i c. AllAt h.nbuckets i (contents c)) h.buckets spot (some b) stored-AllAt
            m.placed;
      once = λ i k.
          update-all (λ i c. occurs k (contents c) ≤ 1) h.buckets spot (some b) (stored-once k)
            (λ j. m.once j k) i;
      counted = omega (
        arith,
        m.counted,
        gather-update h.buckets spot 0 h.nbuckets (some b) (omega arith) (omega (arith, spot-lt)),
        ap length more,
        length-append (home h e.key) (e ∷ []),
      );
    }

    stored-home_self : home (stored b) e.key ≡ home h e.key ++ e ∷ []
    stored-home_self = ap contents (update_self h.buckets spot (some b)) ∙ more

    stored-holds : (k : ℕ) → element (stored b) k ≡ (if e.key == k then some e else element h k)
    unfolding element
    stored-holds k = elim (ℕ_discrete spot (hashfun h.nbuckets k)) [
      | yes same ↦
          let here : home (stored b) k ≡ home h e.key ++ e ∷ [] =
            ap (λ i. contents (update h.buckets spot (some b) i)) (sym same) ∙ stored-home_self in
          let old : home h k ≡ home h e.key = ap (λ i. contents (h.buckets i)) (sym same) in
          rw (here, old) (entry-append (home h e.key) e k fresh_home)
      | no other ↦
          let there : home (stored b) k ≡ home h k =
            ap contents (update_ne h.buckets spot (hashfun h.nbuckets k) (some b) other) in
          let ne : e.key ≢ k = λ same. other (ap (hashfun h.nbuckets) same) in
          rw there (ground arith)
    ]

    stored-located :
        lookup e.key (stored b)
        ≡ ok (some (record { bucket = spot; index = length (home h e.key); elem = e }))
    stored-located =
        lookup-place (stored b) e.key stored-IsMap
        ∙ ap ok (
            ap (place_of e.key spot 0) stored-home_self
            ∙ place_of-append e.key spot 0 (home h e.key) e fresh_home refl
            ∙ ap (λ (k : ℕ). some (record { bucket = spot; index = k; elem = e })) (omega arith))

    stored-Inserted :
        Inserted e h (stored b) (record { bucket = spot; index = length (home h e.key); elem = e })
    stored-Inserted = record {
      sound = stored-IsMap;
      holds = stored-holds;
      located = stored-located;
      shown = refl;
      grown = omega arith;
      merging = refl;
      is_leftmost = refl;
    }

  -- A key that the map has no element for.
  pub insert_no_rehash-Inserted :
      (h' : ReducerMap) × (p : Place) × (insert_no_rehash e h ≡ ok (h', p))
      × Inserted e h h' p
      × (h'.nbuckets ≡ h.nbuckets)
  unfolding insert_no_rehash
  insert_no_rehash-Inserted =
      let (b, j, b', fits, wrote, wf, more, len) =
        grow-Grown (h.buckets spot) e (m.sound spot) key in
      (
        stored b',
        record { bucket = spot; index = length (home h e.key); elem = e },
        rw
            (
              insert_no_rehash,
              ne→false e.key 0 key,
              ne→false e.view 0 view,
              lt→ltb spot h.nbuckets spot-lt,
              fits,
              wrote,
              len,
            )
            refl,
        stored-Inserted b' wf more,
        refl,
      )
