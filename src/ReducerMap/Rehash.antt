-- ===== src/ReducerMap/Rehash.antt =====
-- `rehash` puts the elements into a table of twice the size and loses none; `rehash_and_insert`.
use native.Mathlib.Nat.{two-pow-succ}
use cilk_l.Prelude.{
  ℕ, zero, suc, ◌+◌, ◌*◌, ◌^◌, ◌≤◌, ◌<◌, ◌≡◌, ◌≢◌, refl, sym, ap, ◌∙◌, inl, inr, Option, none, some,
  List, [], ◌∷◌, ◌++◌, length, arith, ne→false, ==_iff, Bool-cases, ℕ_discrete, Outcome, ok, ◌>>=◌,
  bind_assoc, bind_ext,
}
use cilk_l.ReducerMap.{
  Elem, Bucket, ReducerMap, Place, hashfun, insert_no_rehash, make_buckets, reinsert, reinsert_all,
  rehash, rehash_and_insert, need_rehash_p, nextsz,
}
use cilk_l.ReducerMap.Hash.{is_power_of_2_lem, hashfun-lt}
use cilk_l.ReducerMap.Buckets.{IsEnded, contents, IsBucket?, used}
use cilk_l.ReducerMap.Table.{
  entry, occurs, AllAt, gather, elements, element, IsMap, IsMap-pos, entry-append_ne,
  entry-append_none, entry-none, occurs-append, occurs-elsewhere,
}
use cilk_l.ReducerMap.Insert.{Inserted, insert_no_rehash-Inserted}

-- One insertion after the other.
insert_list : List Elem → ReducerMap → Outcome ReducerMap
insert_list [] h = ok h
insert_list (e ∷ es) h = insert_no_rehash e h >>= λ (h', _). insert_list es h'

insert_list-append :
    (us vs : List Elem) (h : ReducerMap)
    → insert_list (us ++ vs) h ≡ (insert_list us h >>= insert_list vs)
unfolding insert_list
insert_list-append [] vs h = refl
insert_list-append (e ∷ us) vs h =
    bind_ext (λ (h', _). insert_list-append us vs h') (insert_no_rehash e h)
    ∙ sym (bind_assoc (insert_no_rehash e h) (λ (h', _). insert_list us h') (insert_list vs))

-- The loop stops at the null key.
reinsert-used :
    (es : List Elem) (h : ReducerMap) → IsEnded es → reinsert es h ≡ insert_list (used es) h
unfolding reinsert IsEnded used insert_list
reinsert-used [] h ended = absurd (omega arith)
reinsert-used (e ∷ es) h (inl (z, all)) = ground arith
reinsert-used (e ∷ es) h (inr (nz, ended)) =
    rw (ne→false e.key 0 nz)
      (bind_ext (λ (h', _). reinsert-used es h' ended) (insert_no_rehash e h))

reinsert_all-gather :
    (bs : ℕ → Option Bucket) (i n : ℕ) (h : ReducerMap)
    → ((j : ℕ) → IsBucket? (bs j))
    → reinsert_all bs i n h ≡ insert_list (gather bs i n) h
unfolding reinsert_all gather
reinsert_all-gather bs i zero h sound = unfold insert_list in refl
reinsert_all-gather bs i (suc n) h sound =
    go (bs i) (sound i) (λ h'. reinsert_all-gather bs (suc i) n h' sound)
  where
    go :
        (b : Option Bucket)
        → IsBucket? b
        → ((h' : ReducerMap) → reinsert_all bs (suc i) n h' ≡ insert_list (gather bs (suc i) n) h')
        → ◌≡◌ {A = Outcome ReducerMap}
            (elim b [
              | none ↦ reinsert_all bs (suc i) n h
              | some b ↦ reinsert b.el h >>= λ h'. reinsert_all bs (suc i) n h'
            ])
            (insert_list (contents b ++ gather bs (suc i) n) h)
    go none wf rest = rest h
    go (some b) wf rest =
        ap (λ r. r >>= λ h'. reinsert_all bs (suc i) n h') (reinsert-used b.el h wf.ended)
        ∙ bind_ext rest (insert_list (used b.el) h)
        ∙ sym (insert_list-append (used b.el) (gather bs (suc i) n) h)

-- The elements have keys and views.
unfoldable pub AllNonNull : List Elem → Type 0
AllNonNull [] = 0 ≤ 0
AllNonNull (e ∷ es) = (e.key ≢ 0) × (e.view ≢ 0) × AllNonNull es

append-AllNonNull :
    (n i : ℕ) (us vs : List Elem) → AllAt n i us → AllNonNull vs → AllNonNull (us ++ vs)
unfolding AllAt AllNonNull
append-AllNonNull n i [] vs h k = k
append-AllNonNull n i (e ∷ us) vs (a, b, c, h) k = (a, b, append-AllNonNull n i us vs h k)

pub gather-AllNonNull :
    (n : ℕ) (bs : ℕ → Option Bucket) (j m : ℕ)
    → ((i : ℕ) → AllAt n i (contents (bs i)))
    → AllNonNull (gather bs j m)
unfolding gather
gather-AllNonNull n bs j zero h = unfold AllNonNull in (omega arith)
gather-AllNonNull n bs j (suc m) h =
    append-AllNonNull n j (contents (bs j)) (gather bs (suc j) m) (h j)
      (gather-AllNonNull n bs (suc j) m h)

-- A map after a list of insertions.
record Filled (es : List Elem) (h h' : ReducerMap) : Type 0 where
  sound : IsMap h'
  holds : (k : ℕ) → element h' k ≡ elim (entry k es) [ none ↦ element h k | some e ↦ some e ]
  grown : h'.nelem ≡ h.nelem + length es
  width : h'.nbuckets ≡ h.nbuckets
  merging : h'.merging ≡ h.merging
  is_leftmost : h'.is_leftmost ≡ h.is_leftmost

insert_list-Filled :
    (es : List Elem) (h : ReducerMap)
    → IsMap h
    → AllNonNull es
    → ((k : ℕ) → occurs k es ≤ 1)
    → ((k : ℕ) → 0 < occurs k es → element h k ≡ none)
    → (h' : ReducerMap) × (insert_list es h ≡ ok h') × Filled es h h'
unfolding insert_list AllNonNull occurs entry
insert_list-Filled [] h m all once fresh = (
  h,
  refl,
  record {
    sound = m;
    holds = λ k. refl;
    grown = omega arith;
    width = refl;
    merging = refl;
    is_leftmost = refl;
  },
)
insert_list-Filled (e ∷ es) h m (key, view, all) once fresh =
    let (g, p, ran, ins, wide) =
      insert_no_rehash-Inserted e h m key view (fresh e.key (ground arith)) in
    let (h', rest, fill) =
      insert_list-Filled es g ins.sound all (λ k. omega (arith, once k))
        (λ k more. ground (arith, ins.holds k, once k, fresh k)) in
    (
      h',
      rw ran rest,
      record {
        sound = fill.sound;
        holds = λ k. ground (arith, fill.holds k, ins.holds k, once k, entry-none k es);
        grown = omega (arith, fill.grown, ins.grown);
        width = fill.width ∙ wide;
        merging = fill.merging ∙ ins.merging;
        is_leftmost = fill.is_leftmost ∙ ins.is_leftmost;
      },
    )

-- Of all the elements, those with a key are in the key's own bucket.
gather-home :
    (n : ℕ) (bs : ℕ → Option Bucket) (k j m : ℕ)
    → ((i : ℕ) → AllAt n i (contents (bs i)))
    → (hashfun n k < j → occurs k (gather bs j m) ≡ 0)
      × (j ≤ hashfun n k
          → hashfun n k < j + m
          → (occurs k (gather bs j m) ≡ occurs k (contents (bs (hashfun n k))))
            × (entry k (gather bs j m) ≡ entry k (contents (bs (hashfun n k)))))
unfolding gather
gather-home n bs k j zero h = (λ lt. unfold occurs in refl, λ le lt. absurd (omega arith))
gather-home n bs k j (suc m) h =
    let i = hashfun n k in
    let us = contents (bs j) in
    let vs = gather bs (suc j) m in
    let (below, inside) = gather-home n bs k (suc j) m h in
    let elsewhere : i ≢ j → occurs k us ≡ 0 = occurs-elsewhere n j k us (h j) in
    (
      (λ lt. omega (arith, occurs-append k us vs, elsewhere (omega arith), below (omega arith))),
      λ le lt. elim (ℕ_discrete i j) [
        | yes same ↦
            let nothing = below (omega arith) in
            let here : contents (bs i) ≡ us = ap (λ l. contents (bs l)) same in
            rw here (omega (arith, occurs-append k us vs), entry-append_ne k us vs nothing)
        | no other ↦
            let nothing = elsewhere other in
            let (o, e) = inside (omega arith) (omega arith) in
            (
              omega (arith, occurs-append k us vs),
              entry-append_none k us vs (entry-none k us nothing) ∙ e,
            )
      ],
    )

-- All the elements of a sound map, as a list.
pub elements_lem :
    (h : ReducerMap) (k : ℕ)
    → IsMap h
    → (occurs k (elements h) ≤ 1) × (entry k (elements h) ≡ element h k)
unfolding element
elements_lem h k m =
    let lt = hashfun-lt h.nbuckets k (IsMap-pos h m) in
    let (o, e) =
      (gather-home h.nbuckets h.buckets k 0 h.nbuckets m.placed).1 (omega arith)
        (omega (arith, lt)) in
    (omega (arith, o, m.once (hashfun h.nbuckets k) k), e)

gather-empty : (j m : ℕ) → gather (λ i. none) j m ≡ []
unfolding gather
gather-empty j zero = refl
gather-empty j (suc m) = gather-empty (suc j) m

pub empty-IsMap :
    (h : ReducerMap) (log n : ℕ)
    → n ≡ 2 ^ log
    → IsMap (record h { nbuckets = n; buckets = λ i. none; nelem = 0 })
empty-IsMap h log n power = record {
  log = log;
  power = power;
  sound = λ i. omega arith;
  placed = λ i. unfold AllAt in omega arith;
  once = λ i k. unfold occurs in omega arith;
  counted = ap length (sym (gather-empty 0 n));
}

-- The same elements in a table of twice the size.
pub record Rehashed (h h' : ReducerMap) : Type 0 where
  pub sound : IsMap h'
  pub holds : (k : ℕ) → element h' k ≡ element h k
  pub kept : h'.nelem ≡ h.nelem
  pub width : h'.nbuckets ≡ 2 * h.nbuckets
  pub merging : h'.merging ≡ h.merging
  pub is_leftmost : h'.is_leftmost ≡ h.is_leftmost

pub element-none :
    (n : ℕ) (h : ReducerMap) (k : ℕ)
    → element (record h { nbuckets = n; buckets = λ i. none; nelem = 0 }) k ≡ none
unfolding element entry
element-none n h k = refl

same_option :
    (o d : Option Elem) → d ≡ none → ◌≡◌ {A = Option Elem} (elim o [ none ↦ d | some e ↦ some e ]) o
same_option none d h = h
same_option (some e) d h = refl

-- Rehashing a sound map passes its assertions and stays inside the arrays.
pub rehash-Rehashed :
    (h : ReducerMap) → IsMap h → (h' : ReducerMap) × (rehash h ≡ ok h') × Rehashed h h'
unfolding rehash make_buckets
rehash-Rehashed h m =
    let n = nextsz h.nbuckets in
    let power : n ≡ 2 ^ suc m.log = omega (arith, m.power, two-pow-succ m.log) in
    let fresh : ReducerMap = record h { nbuckets = n; buckets = λ i. none; nelem = 0 } in
    let all = gather-AllNonNull h.nbuckets h.buckets 0 h.nbuckets m.placed in
    let (h', ran, fill) =
      insert_list-Filled (elements h) fresh (empty-IsMap h (suc m.log) n power) all
        (λ k. (elements_lem h k m).0) (λ k more. element-none n h k) in
    let loop : reinsert_all h.buckets 0 h.nbuckets fresh ≡ ok h' =
      reinsert_all-gather h.buckets 0 h.nbuckets fresh m.sound ∙ ran in
    let count : h'.nelem ≡ h.nelem = omega (arith, fill.grown, m.counted) in
    (
      h',
      rw (is_power_of_2_lem (suc m.log) n power, loop, (==_iff h'.nelem h.nelem).1 count) refl,
      record {
        sound = fill.sound;
        holds = λ k.
            fill.holds k
            ∙ ap (λ o. elim o [ none ↦ element fresh k | some e ↦ some e ]) (elements_lem h k m).1
            ∙ same_option (element h k) (element fresh k) (element-none n h k);
        kept = count;
        width = fill.width;
        merging = fill.merging;
        is_leftmost = fill.is_leftmost;
      },
    )

-- Inserting an element, whose key and view are not null, into a sound map that has none for the key:
-- it succeeds, the element is added, the others stay, and the table stays sound. The caller's pointer
-- is to the new element. While there are no more elements than buckets, there are no more after it.
pub rehash_and_insert-Inserted :
    (e : Elem) (h : ReducerMap)
    → IsMap h
    → e.key ≢ 0
    → e.view ≢ 0
    → element h e.key ≡ none
    → (h' : ReducerMap) × (p : Place) × (rehash_and_insert e h ≡ ok (h', p))
      × Inserted e h h' p
      × (h.nelem ≤ h.nbuckets → h'.nelem ≤ h'.nbuckets)
unfolding rehash_and_insert
rehash_and_insert-Inserted e h m key view fresh = elim (Bool-cases (need_rehash_p h)) [
  | inr fits ↦
      let (h', p, ran, ins, wide) = insert_no_rehash-Inserted e h m key view fresh in
      (h', p, rw fits ran, ins, λ le. ground (arith, ins.grown, wide))
  | inl small ↦
      let (g, again, r) = rehash-Rehashed h m in
      let (h', p, ran, ins, wide) =
        insert_no_rehash-Inserted e g r.sound key view (r.holds e.key ∙ fresh) in
      (
        h',
        p,
        rw (small, again) ran,
        record {
          sound = ins.sound;
          holds = λ k. ground (arith, ins.holds k, r.holds k);
          located = ins.located;
          shown = ins.shown;
          grown = omega (arith, ins.grown, r.kept);
          merging = ins.merging ∙ r.merging;
          is_leftmost = ins.is_leftmost ∙ r.is_leftmost;
        },
        λ le. omega (arith, ins.grown, r.kept, wide, r.width, IsMap-pos h m),
      )
]
