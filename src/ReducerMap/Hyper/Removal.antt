-- ===== src/ReducerMap/Hyper/Removal.antt =====
-- Taking an element out of a bucket, and what that makes of the map.
use cilk_l.Prelude.{
  ℕ, suc, ◌+◌, ◌-◌, ◌≤◌, ◌≡◌, ◌≢◌, refl, sym, ap, ◌∙◌, inl, inr, none, some, List, [], ◌∷◌, length,
  arith, ◌==◌, ==_iff, ne→false, if◌then◌else◌, Bool-cases, update, update_self, update_ne,
  ℕ_discrete, ok,
}
use cilk_l.ReducerMap.{Elem, Bucket, ReducerMap, Place, hashfun}
use cilk_l.ReducerMap.Hash.{hashfun-lt}
use cilk_l.ReducerMap.Buckets.{AllNull, IsEnded, contents, IsBucket?, used, IsBucket}
use cilk_l.ReducerMap.Table.{
  entry, occurs, place_of, AllAt, gather, elements, home, element, IsMap, IsMap-pos, used-cons,
  entry-none,
}
use cilk_l.ReducerMap.Insert.{update-all, gather-update}
use cilk_l.ReducerMap.Hyper.{move_down, remove_at}

-- An array after one element is taken out.
pub record Removed (n b key : ℕ) (es es' : List Elem) : Type 0 where
  pub ended : IsEnded es'
  pub placed : AllAt n b (used es')
  pub holds : (k : ℕ) → entry k (used es') ≡ (if key == k then none else entry k (used es))
  pub fewer : (k : ℕ) → occurs k (used es') ≤ occurs k (used es)
  pub size : suc (length (used es')) ≡ length (used es)
  pub same : length es' ≡ length es

-- The elements behind the first one move down by one.
move_down_lem :
    (e : Elem) (es : List Elem)
    → e.key ≢ 0
    → IsEnded es
    → (es' : List Elem) × (move_down (e ∷ es) ≡ ok es')
      × IsEnded es'
      × (used es' ≡ used es)
      × (length es' ≡ suc (length es))
unfolding move_down IsEnded used AllNull
move_down_lem e [] ne ended = absurd (omega arith)
move_down_lem e (x ∷ es) ne (inl (z, null)) =
    (x ∷ x ∷ es, rw ((==_iff x.key 0).1 z) refl, inl (z, (z, null)), ground arith, refl)
move_down_lem e (x ∷ es) ne (inr (nz, ended)) =
    let (es', ran, ended', same, len) = move_down_lem x es nz ended in
    (
      x ∷ es',
      rw (ne→false x.key 0 nz, ran) refl,
      inr (nz, ended'),
      ground (arith, same),
      omega (arith, len),
    )

pub remove_at-Removed :
    (n b key i : ℕ) (es : List Elem) (p : Place)
    → IsEnded es
    → AllAt n b (used es)
    → ((k : ℕ) → occurs k (used es) ≤ 1)
    → place_of key b i (used es) ≡ some p
    → (j : ℕ) × (p.index ≡ i + j)
      × (p.bucket ≡ b)
      × ((es' : List Elem) × (remove_at j es ≡ ok es') × Removed n b key es es')
unfolding remove_at IsEnded used place_of AllAt entry occurs
remove_at-Removed n b key i [] p ended all once at = absurd (omega arith)
remove_at-Removed n b key i (e ∷ es) p (inl (z, null)) all once at = absurd (ground arith)
remove_at-Removed n b key i (e ∷ es) p (inr (nz, ended)) all once at =
    let us = used-cons e es nz in
    let here : AllAt n b (e ∷ used es) = rw us at all in
    let once' : (k : ℕ) → occurs k (e ∷ used es) ≤ 1 = λ k. rw us at (once k) in
    let at' : place_of key b i (e ∷ used es) ≡ some p = rw us at at in
    elim (Bool-cases (e.key == key)) [
      | inl found ↦
          let (es', ran, ended', same, len) = move_down_lem e es nz ended in
          (
            0,
            ground arith,
            ground arith,
            (
              es',
              ran,
              record {
                ended = ended';
                placed = rw same here.3;
                holds = λ k. rw (same, us) (ground (arith, entry-none k (used es), once' k));
                fewer = λ k. rw (same, us) (omega arith);
                size = ap (λ l. suc (length l)) same ∙ sym (ap length us);
                same = len;
              },
            ),
          )
      | inr other ↦
          let rest : place_of key b (suc i) (used es) ≡ some p = ground arith in
          let (j, index, bucket, (es', ran, r)) =
            remove_at-Removed n b key (suc i) es p ended here.3 (λ k. omega (arith, once' k))
              rest in
          let us' = used-cons e es' nz in
          (
            suc j,
            omega (arith, index),
            bucket,
            (
              e ∷ es',
              rw ran refl,
              record {
                ended = inr (nz, r.ended);
                placed = rw us' (here.0, here.1, here.2, r.placed);
                holds = λ k. ground (arith, us, us', r.holds k);
                fewer = λ k. rw (us, us') (omega (arith, r.fewer k));
                size = ap (λ l. suc (length l)) us' ∙ ap suc r.size ∙ sym (ap length us);
                same = ap suc r.same;
              },
            ),
          )
    ]

-- A map after the hyperobject with the key is taken out.
pub record Unregistered (key : ℕ) (h h' : ReducerMap) : Type 0 where
  pub sound : IsMap h'
  pub holds : (k : ℕ) → element h' k ≡ (if key == k then none else element h k)
  pub fewer : suc h'.nelem ≡ h.nelem
  pub merging : h'.merging ≡ h.merging
  pub is_leftmost : h'.is_leftmost ≡ h.is_leftmost

module _ (h : ReducerMap) (m : IsMap h) (key : ℕ) where
  abbrev i : ℕ
  i = hashfun h.nbuckets key

  abbrev pub without : Bucket → ReducerMap
  without b = record h { buckets = update h.buckets i (some b); nelem = h.nelem - 1 }

  module _ (b : Bucket) (es : List Elem) (is : h.buckets i ≡ some b)
      (r : Removed h.nbuckets i key b.el es) where
    abbrev b' : Bucket
    b' = record b { el = es }

    old_home : home h key ≡ used b.el
    old_home = ap contents is

    old_sound : IsBucket b
    old_sound = rw is at (m.sound i)

    spread :
        length (gather (without b').buckets 0 h.nbuckets) + length (used b.el)
        ≡ length (elements h) + length (used es)
    spread =
        ap (λ c. length (gather (without b').buckets 0 h.nbuckets) + length c) (sym old_home)
        ∙ gather-update h.buckets i 0 h.nbuckets (some b') (omega arith)
            (omega (arith, hashfun-lt h.nbuckets key (IsMap-pos h m)))

    without-IsMap : IsMap (without b')
    without-IsMap = record {
      log = m.log;
      power = m.power;
      sound =
          update-all (λ k. IsBucket?) h.buckets i (some b')
            (record { sized = r.same ∙ old_sound.sized; ended = r.ended }) m.sound;
      placed =
          update-all (λ k c. AllAt h.nbuckets k (contents c)) h.buckets i (some b') r.placed
            m.placed;
      once = λ k key'.
          update-all (λ l c. occurs key' (contents c) ≤ 1) h.buckets i (some b')
            (omega (arith, r.fewer key', m.once i key', ap (occurs key') old_home))
            (λ l. m.once l key') k;
      counted = omega (arith, m.counted, spread, r.size);
    }

    without-holds : (k : ℕ) → element (without b') k ≡ (if key == k then none else element h k)
    unfolding element
    without-holds k = elim (ℕ_discrete i (hashfun h.nbuckets k)) [
      | yes same ↦
          let here : home (without b') k ≡ used es =
            ap (λ l. contents (update h.buckets i (some b') l)) (sym same)
            ∙ ap contents (update_self h.buckets i (some b')) in
          let old : home h k ≡ used b.el = ap (λ l. contents (h.buckets l)) (sym same) ∙ old_home in
          rw (here, old) (r.holds k)
      | no other ↦
          let there : home (without b') k ≡ home h k =
            ap contents (update_ne h.buckets i (hashfun h.nbuckets k) (some b') other) in
          let ne : key ≢ k = λ same. other (ap (hashfun h.nbuckets) same) in rw there (ground arith)
    ]

    pub without-Unregistered : Unregistered key h (without b')
    without-Unregistered = record {
      sound = without-IsMap;
      holds = without-holds;
      fewer = omega (arith, m.counted, spread, r.size);
      merging = refl;
      is_leftmost = refl;
    }
