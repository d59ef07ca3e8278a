-- ===== src/Broker/Distribute/Delivery.antt =====
-- Every receiver gets its sources' primaries, all of them, in order.
use dastard.Base.{
  ℕ, zero, suc, ◌+◌, ◌<◌, ◌≡◌, refl, sym, ◌∙◌, true, ◌||◌, ◌==◌, List, [], ◌∷◌, ◌++◌, Option, some,
  none, if◌then◌else◌, get_elem?, get_or, length, replicate, All, arith, Bool-cases, inl, inr, ltb,
  ok, index,
}
use dastard.Base.Int.{ℤ, pos, negsuc, ◌≤ℤ◌, leb_ℤ, eqb_ℤ, pos_part, int_laws, parts_of_eq}
use dastard.Broker.{TriggerBroker}
use dastard.Broker.Connections.{size, IsCounted, eqb_eq}
use dastard.Broker.Counter.Total.{Ascending}
use dastard.Broker.Distribute.{insert_frame, sort_indices, gather, receive, deliver}

-- How often a frame is listed.
abbrev pub occurrences : ℤ → List ℤ → ℕ
occurrences f [] = 0
occurrences f (x ∷ xs) = (if eqb_ℤ f x then 1 else 0) + occurrences f xs

-- How often a frame is a primary of one of the sources.
abbrev pub sent : List (List ℤ) → ℤ → List ℤ → ℕ
sent latest f [] = 0
sent latest f (s ∷ ss) = occurrences f (get_or latest (pos_part s) []) + sent latest f ss

abbrev pub Sorted : List ℤ → Type 0
Sorted [] = Unit {0}
Sorted (x ∷ xs) = Ascending x xs

-- What the receiver `r` gets: nothing, where it has no entry.
abbrev or_nothing : Option (List ℤ) → List ℤ
or_nothing none = []
or_nothing (some l) = l

abbrev pub received : List (Option (List ℤ)) → ℕ → List ℤ
received m r = or_nothing (get_or m r none)

-- A channel number below `n`.
abbrev pub Below : ℕ → ℤ → Type 0
Below n s = (pos 0 ≤ℤ s) × (pos_part s < n)

occurrences-append :
    (f : ℤ) (xs ys : List ℤ) → occurrences f (xs ++ ys) ≡ occurrences f xs + occurrences f ys
occurrences-append f [] ys = omega arith
occurrences-append f (x ∷ xs) ys = omega (arith, occurrences-append f xs ys)

occurrences-insert_frame :
    (f x : ℤ) (l : List ℤ) → occurrences f (insert_frame x l) ≡ occurrences f (x ∷ l)
unfolding insert_frame
occurrences-insert_frame f x [] = refl
occurrences-insert_frame f x (y ∷ l) = elim (Bool-cases (leb_ℤ x y)) [
  | inl le ↦ rw le
  | inr gt ↦ rw gt (omega (arith, occurrences-insert_frame f x l))
]

occurrences-sort : (f : ℤ) (l : List ℤ) → occurrences f (sort_indices l) ≡ occurrences f l
unfolding sort_indices
occurrences-sort f [] = refl
occurrences-sort f (x ∷ l) =
    omega (arith, occurrences-insert_frame f x (sort_indices l), occurrences-sort f l)

Ascending-insert_frame :
    (m x : ℤ) (l : List ℤ) → m ≤ℤ x → Ascending m l → Ascending m (insert_frame x l)
unfolding insert_frame
Ascending-insert_frame m x [] le h = (le, tt)
Ascending-insert_frame m x (y ∷ l) le h = elim (Bool-cases (leb_ℤ x y)) [
  | inl yes_le ↦ rw yes_le (le, (ground arith, h.1))
  | inr gt ↦ rw gt (h.0, Ascending-insert_frame y x l (ground arith) h.1)
]

Sorted-insert_frame : (x : ℤ) (l : List ℤ) → Sorted l → Sorted (insert_frame x l)
unfolding insert_frame
Sorted-insert_frame x [] h = tt
Sorted-insert_frame x (y ∷ l) h = elim (Bool-cases (leb_ℤ x y)) [
  | inl le ↦ rw le (ground arith, h)
  | inr gt ↦ rw gt (Ascending-insert_frame y x l (ground arith) h)
]

Sorted-sort : (l : List ℤ) → Sorted (sort_indices l)
unfolding sort_indices
Sorted-sort [] = tt
Sorted-sort (x ∷ l) = Sorted-insert_frame x (sort_indices l) (Sorted-sort l)

at-Below :
    (latest : List (List ℤ)) (s : ℤ)
    → Below (length latest) s
    → (index s ≡ ok (pos_part s))
      × (get_elem? latest (pos_part s) ≡ some (get_or latest (pos_part s) []))
at-Below latest (pos n) h = (refl, found latest n h.1)
  where
    found : (ls : List (List ℤ)) (n : ℕ) → n < length ls → get_elem? ls n ≡ some (get_or ls n [])
    found [] n lt = elim lt [ ]
    found (l ∷ ls) zero lt = refl
    found (l ∷ ls) (suc n) lt = found ls n (omega arith)
at-Below latest (negsuc n) h = absurd (omega (arith, h.0))

module _ (latest : List (List ℤ)) where
  gather-sent :
      (ss : List ℤ)
      → All (Below (length latest)) ss
      → (l : List ℤ) × (gather latest ss ≡ ok l) × ((f : ℤ) → occurrences f l ≡ sent latest f ss)
  unfolding gather
  gather-sent [] h = ([], refl, λ f. refl)
  gather-sent (s ∷ ss) h =
      let (l, e, n) = gather-sent ss h.1 in
      let (i, g) = at-Below latest s h.0 in
      (
        get_or latest (pos_part s) [] ++ l,
        rw (i, g, e) refl,
        λ f. omega (arith, n f, occurrences-append f (get_or latest (pos_part s) []) l),
      )

  -- The secondaries of all receivers.
  abbrev Delivered : List (List ℤ) → List (Option (List ℤ)) → Type 0
  Delivered sources m =
      (r : ℕ)
      → Sorted (received m r)
        × ((f : ℤ) → occurrences f (received m r) ≡ sent latest f (get_or sources r []))

  entry :
      (ss l : List ℤ)
      → ((f : ℤ) → occurrences f l ≡ sent latest f ss)
      → let o = or_nothing (if ltb 0 (length ss) then some (sort_indices l) else none) in
        Sorted o × ((f : ℤ) → occurrences f o ≡ sent latest f ss)
  entry [] l h = (tt, λ f. refl)
  entry (s ∷ ss) l h =
      let some_in : ltb 0 (suc (length ss)) ≡ true = ground arith in
      rw some_in (Sorted-sort l, λ f. occurrences-sort f l ∙ h f)

  receive-Delivered :
      (ls : List (List ℤ))
      → All (All (Below (length latest))) ls
      → (m : List (Option (List ℤ))) × (receive latest ls ≡ ok m) × Delivered ls m
  unfolding receive
  receive-Delivered [] h = ([], refl, λ r. (tt, λ f. refl))
  receive-Delivered (ss ∷ ls) h =
      let (l, e, n) = gather-sent ss h.0 in
      let (m, e', d) = receive-Delivered ls h.1 in
      (
        (if ltb 0 (length ss) then some (sort_indices l) else none) ∷ m,
        rw (e, e') refl,
        λ r. each ss l n ls m d r,
      )
    where
      each :
          (ss l : List ℤ)
          → ((f : ℤ) → occurrences f l ≡ sent latest f ss)
          → (ls : List (List ℤ)) (m : List (Option (List ℤ))) → Delivered ls m
          → Delivered (ss ∷ ls) ((if ltb 0 (length ss) then some (sort_indices l) else none) ∷ m)
      each ss l n ls m d zero = entry ss l n
      each ss l n ls m d (suc r) = d r

  nothing-replicate : (n r : ℕ) → received (replicate n none) r ≡ []
  nothing-replicate zero r = refl
  nothing-replicate (suc n) zero = refl
  nothing-replicate (suc n) (suc r) = nothing-replicate n r

  sent-nothing : (f : ℤ) (ss : List ℤ) → size latest ≡ 0 → sent latest f ss ≡ 0
  sent-nothing f [] h = refl
  sent-nothing f (s ∷ ss) h =
      rw (none_at latest (pos_part s) h) (omega (arith, sent-nothing f ss h))
    where
      none_at : (ls : List (List ℤ)) (i : ℕ) → size ls ≡ 0 → get_or ls i [] ≡ []
      none_at [] i h = refl
      none_at ([] ∷ ls) zero h = refl
      none_at ((x ∷ xs) ∷ ls) zero h = absurd (omega arith)
      none_at (l ∷ ls) (suc i) h = none_at ls i (omega arith)

  no_source : (ls : List (List ℤ)) (r : ℕ) → size ls ≡ 0 → get_or ls r [] ≡ []
  no_source [] r h = refl
  no_source ([] ∷ ls) zero h = refl
  no_source ((x ∷ xs) ∷ ls) zero h = absurd (omega arith)
  no_source (l ∷ ls) (suc r) h = no_source ls r (omega arith)

  Delivered-nothing :
      (sources : List (List ℤ)) (n : ℕ)
      → ((r : ℕ) (f : ℤ) → sent latest f (get_or sources r []) ≡ 0)
      → Delivered sources (replicate n none)
  Delivered-nothing sources n h r = rw (nothing-replicate n r) (tt, λ f. sym (h r f))

-- For a broker with the right number of connections, all of them from its own channels, a list of
-- primaries for each channel, and their total number: the call ends without a panic, and each
-- receiver's frames are in ascending order, every frame as often as its sources have it as a
-- primary. A receiver without an entry gets none. The early return loses no trigger.
pub deliver-Delivered :
    (n : ℕ) (b : TriggerBroker)
    → IsCounted b
    → length b.latest_primaries ≡ b.nchannels
    → size b.latest_primaries ≡ n
    → All (All (Below b.nchannels)) b.sources
    → (m : List (Option (List ℤ))) × (deliver n b ≡ ok m)
      × ((r : ℕ)
          → Sorted (received m r)
            × ((f : ℤ)
                → occurrences f (received m r) ≡ sent b.latest_primaries f (get_or b.sources r [])))
unfolding deliver
deliver-Delivered n b h each whole below =
    elim (Bool-cases ((n == 0) || eqb_ℤ b.nconnections (pos 0))) [
      | inl early ↦ (
        replicate b.nchannels none,
        rw early refl,
        Delivered-nothing b.latest_primaries b.sources b.nchannels (why early),
      )
      | inr late ↦
          let (m, e, d) = receive-Delivered b.latest_primaries b.sources (rw each below) in
          (m, rw late e, d)
    ]
  where
    why :
        (n == 0) || eqb_ℤ b.nconnections (pos 0) ≡ true
        → (r : ℕ) (f : ℤ) → sent b.latest_primaries f (get_or b.sources r []) ≡ 0
    why early r f = elim (Bool-cases (n == 0)) [
      | inl z ↦ sent-nothing b.latest_primaries f _ (let e : n ≡ 0 = ground arith in whole ∙ e)
      | inr nz ↦
          let zero_conn = eqb_eq b.nconnections (pos 0) (rw nz at early) in
          let empty : size b.sources ≡ 0 =
            omega (int_laws, parts_of_eq _ _ zero_conn, parts_of_eq _ _ h.counted) in
          rw (no_source b.latest_primaries b.sources r empty)
    ]
