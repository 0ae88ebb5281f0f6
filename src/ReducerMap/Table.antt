-- ===== src/ReducerMap/Table.antt =====
-- What a reducer map holds: the element with a key, and when a table is sound.
use cilk_l.Prelude.{
  ℕ, zero, suc, ◌+◌, ◌^◌, ◌≤◌, ◌<◌, ◌≡◌, ◌≢◌, ◌⊎◌, refl, sym, ap, ◌∙◌, inl, inr, Option, none, some,
  List, [], ◌∷◌, ◌++◌, length, arith, lt→ltb, ◌==◌, if◌then◌else◌, Option-cases, Bool-cases,
  Outcome, ok,
}
use cilk_l.ReducerMap.{Elem, Bucket, ReducerMap, Place, hashfun, search_bucket, lookup}
use cilk_l.ReducerMap.Hash.{hashfun-lt, pow-pos}
use cilk_l.ReducerMap.Buckets.{used, IsEnded, contents, IsBucket?}

-- The first element with a key.
unfoldable pub entry : ℕ → List Elem → Option Elem
entry key [] = none
entry key (e ∷ es) = if e.key == key then some e else entry key es

-- How many elements have a key.
unfoldable pub occurs : ℕ → List Elem → ℕ
occurs key [] = 0
occurs key (e ∷ es) = (if e.key == key then 1 else 0) + occurs key es

-- Where the first element with a key stands in bucket `b`, whose elements from index `i` on are given.
unfoldable pub place_of : ℕ → ℕ → ℕ → List Elem → Option Place
place_of key b i [] = none
place_of key b i (e ∷ es) =
    if e.key == key
    then some (record { bucket = b; index = i; elem = e })
    else place_of key b (suc i) es

-- The elements belong into bucket `i` of `n`; none has a null key or a null view.
unfoldable pub AllAt : ℕ → ℕ → List Elem → Type 0
AllAt n i [] = 0 ≤ 0
AllAt n i (e ∷ es) = (e.key ≢ 0) × (e.view ≢ 0) × (hashfun n e.key ≡ i) × AllAt n i es

-- The elements of `n` buckets, from bucket `i` on.
unfoldable pub gather : (ℕ → Option Bucket) → ℕ → ℕ → List Elem
gather buckets i zero = []
gather buckets i (suc n) = contents (buckets i) ++ gather buckets (suc i) n

abbrev pub elements : ReducerMap → List Elem
elements h = gather h.buckets 0 h.nbuckets

-- The bucket of a key, and the element that the map has for it.
abbrev pub home : ReducerMap → ℕ → List Elem
home h key = contents (h.buckets (hashfun h.nbuckets key))

unfoldable pub element : ReducerMap → ℕ → Option Elem
element h key = entry key (home h key)

pub record IsMap (h : ReducerMap) : Type 0 where
  pub log : ℕ
  pub power : h.nbuckets ≡ 2 ^ log
  pub sound : (i : ℕ) → IsBucket? (h.buckets i)
  pub placed : (i : ℕ) → AllAt h.nbuckets i (contents (h.buckets i))
  pub once : (i key : ℕ) → occurs key (contents (h.buckets i)) ≤ 1
  pub counted : h.nelem ≡ length (elements h)

pub IsMap-pos : (h : ReducerMap) → IsMap h → 0 < h.nbuckets
IsMap-pos h m = omega (arith, m.power, pow-pos m.log)

pub entry-append :
    (us : List Elem) (e : Elem) (k : ℕ)
    → entry e.key us ≡ none
    → entry k (us ++ e ∷ []) ≡ (if e.key == k then some e else entry k us)
unfolding entry
entry-append [] e k fresh = refl
entry-append (x ∷ us) e k fresh = ground (arith, entry-append us e k)

pub entry-append_ne :
    (key : ℕ) (us vs : List Elem) → occurs key vs ≡ 0 → entry key (us ++ vs) ≡ entry key us
unfolding entry occurs
entry-append_ne key [] [] h = refl
entry-append_ne key [] (e ∷ vs) h = ground (arith, entry-append_ne key [] vs)
entry-append_ne key (x ∷ us) vs h = ground (arith, entry-append_ne key us vs)

pub entry-append_none :
    (key : ℕ) (us vs : List Elem) → entry key us ≡ none → entry key (us ++ vs) ≡ entry key vs
unfolding entry
entry-append_none key [] vs h = refl
entry-append_none key (x ∷ us) vs h = ground (arith, entry-append_none key us vs)

pub entry-none : (key : ℕ) (us : List Elem) → occurs key us ≡ 0 → entry key us ≡ none
unfolding entry
entry-none key us h = entry-append_ne key [] us h

pub occurs-entry : (key : ℕ) (us : List Elem) → entry key us ≡ none → occurs key us ≡ 0
unfolding entry occurs
occurs-entry key [] h = refl
occurs-entry key (e ∷ us) h = ground (arith, occurs-entry key us)

pub occurs-append :
    (key : ℕ) (us vs : List Elem) → occurs key (us ++ vs) ≡ occurs key us + occurs key vs
unfolding occurs
occurs-append key [] vs = omega arith
occurs-append key (e ∷ us) vs = omega (arith, occurs-append key us vs)

pub AllAt-append :
    (n i : ℕ) (us : List Elem) (e : Elem)
    → AllAt n i us
    → e.key ≢ 0
    → e.view ≢ 0
    → hashfun n e.key ≡ i
    → AllAt n i (us ++ e ∷ [])
unfolding AllAt
AllAt-append n i [] e h a b c = (a, b, c, omega arith)
AllAt-append n i (x ∷ us) e (xa, xb, xc, h) a b c = (xa, xb, xc, AllAt-append n i us e h a b c)

-- A key occurs in its own bucket only.
pub occurs-elsewhere :
    (n i key : ℕ) (us : List Elem) → AllAt n i us → hashfun n key ≢ i → occurs key us ≡ 0
unfolding AllAt occurs
occurs-elsewhere n i key [] h ne = refl
occurs-elsewhere n i key (e ∷ us) (a, b, c, h) ne =
    let other : e.key ≢ key = λ same. ne (ap (hashfun n) (sym same) ∙ c) in
    ground (arith, occurs-elsewhere n i key us h ne)

pub used-cons : (e : Elem) (es : List Elem) → e.key ≢ 0 → used (e ∷ es) ≡ e ∷ used es
unfolding used
used-cons e es nz = ground arith

-- The loop of `lookup` finds the first element with the key, and stops at the end of the bucket.
search_bucket_lem :
    (n b i key : ℕ) (es : List Elem)
    → IsEnded es
    → AllAt n b (used es)
    → search_bucket key b i es ≡ ok (place_of key b i (used es))
unfolding search_bucket IsEnded used AllAt place_of
search_bucket_lem n b i key [] ended h = absurd (omega arith)
search_bucket_lem n b i key (e ∷ es) (inl (z, all)) h = ground arith
search_bucket_lem n b i key (e ∷ es) (inr (nz, ended)) h =
    let here : AllAt n b (e ∷ used es) = rw (used-cons e es nz) at h in
    ground (arith, used-cons e es nz, search_bucket_lem n b (suc i) key es ended here.3)

-- `lookup` never fails on a sound map: it finds the element that the map has for the key.
pub lookup-place :
    (h : ReducerMap) (key : ℕ)
    → IsMap h
    → lookup key h ≡ ok (place_of key (hashfun h.nbuckets key) 0 (home h key))
unfolding lookup
lookup-place h key m =
    let i = hashfun h.nbuckets key in
    rw (lt→ltb i h.nbuckets (hashfun-lt h.nbuckets key (IsMap-pos h m)))
      (go (h.buckets i) (m.sound i) (m.placed i))
  where
    go :
        (b : Option Bucket)
        → IsBucket? b
        → AllAt h.nbuckets (hashfun h.nbuckets key) (contents b)
        → ◌≡◌ {A = Outcome (Option Place)}
            (elim b [ none ↦ ok none | some b ↦ search_bucket key (hashfun h.nbuckets key) 0 b.el ])
            (ok (place_of key (hashfun h.nbuckets key) 0 (contents b)))
    go none wf all = unfold place_of in refl
    go (some b) wf all =
        search_bucket_lem h.nbuckets (hashfun h.nbuckets key) 0 key b.el wf.ended all

-- The place of an element shows it.
pub place_of-entry :
    (key b i : ℕ) (us : List Elem) (e : Elem)
    → entry key us ≡ some e
    → (p : Place) × (place_of key b i us ≡ some p) × (p.elem ≡ e) × (p.bucket ≡ b)
unfolding entry place_of
place_of-entry key b i [] e h = cc
place_of-entry key b i (x ∷ us) e h = elim (Bool-cases (x.key == key)) [
  | inl here ↦ (record { bucket = b; index = i; elem = x }, ground arith, ground arith, refl)
  | inr there ↦
      let (p, found, same, at) = place_of-entry key b (suc i) us e (ground arith) in
      (p, ground (arith, found), same, at)
]

pub place_of-none :
    (key b i : ℕ) (us : List Elem) → entry key us ≡ none → place_of key b i us ≡ none
unfolding entry place_of
place_of-none key b i [] h = refl
place_of-none key b i (x ∷ us) h = ground (arith, place_of-none key b (suc i) us)

entry-key : (us : List Elem) (k : ℕ) (a : Elem) → entry k us ≡ some a → a.key ≡ k
unfolding entry
entry-key [] k a e = absurd (cc)
entry-key (x ∷ us) k a e = ground (arith, entry-key us k a)

pub element-key : (h : ReducerMap) (k : ℕ) (a : Elem) → element h k ≡ some a → a.key ≡ k
unfolding element
element-key h k a e = entry-key (home h k) k a e

-- A place that is found shows the element.
pub place_of-some :
    (key b i : ℕ) (us : List Elem) (p : Place)
    → place_of key b i us ≡ some p
    → (entry key us ≡ some p.elem) × (p.elem.key ≡ key)
unfolding entry place_of
place_of-some key b i [] p h = absurd (cc)
place_of-some key b i (x ∷ us) p h = ground (arith, place_of-some key b (suc i) us p)

pub lookup-some :
    (h : ReducerMap) (key : ℕ) (p : Place)
    → IsMap h
    → lookup key h ≡ ok (some p)
    → (element h key ≡ some p.elem) × (p.elem.key ≡ key)
unfolding element
lookup-some h key p m found =
    place_of-some key (hashfun h.nbuckets key) 0 (home h key) p (cc (lookup-place h key m))

-- What `lookup` answers.
pub lookup-cases :
    (h : ReducerMap) (key : ℕ)
    → IsMap h
    → ((lookup key h ≡ ok none) × (element h key ≡ none))
      ⊎ ((p : Place) × (lookup key h ≡ ok (some p)) × (element h key ≡ some p.elem))
lookup-cases h key m = elim (Option-cases (element h key)) [
  | inl e ↦
      let e' : entry key (home h key) ≡ none = unfold element in e in
      inl (
        lookup-place h key m ∙ ap ok (place_of-none key (hashfun h.nbuckets key) 0 (home h key) e'),
        e,
      )
  | inr (a, e) ↦
      let e' : entry key (home h key) ≡ some a = unfold element in e in
      let (p, found, same, _) = place_of-entry key (hashfun h.nbuckets key) 0 (home h key) a e' in
      inr (p, lookup-place h key m ∙ ap ok found, e ∙ ap some (sym same))
]

-- The element that is added at the end is found there.
pub place_of-append :
    (key b i : ℕ) (us : List Elem) (e : Elem)
    → entry key us ≡ none
    → e.key ≡ key
    → place_of key b i (us ++ e ∷ [])
      ≡ some (record { bucket = b; index = i + length us; elem = e })
unfolding entry place_of
place_of-append key b i [] e h same = ground arith
place_of-append key b i (x ∷ us) e h same = ground (arith, place_of-append key b (suc i) us e)
