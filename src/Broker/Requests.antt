-- ===== src/Broker/Requests.antt =====
-- What AddConnection, DeleteConnection and StopTriggerCoupling do to the connections.
use dastard.Base.{
  ℕ, zero, suc, ◌<◌, ◌≡◌, refl, ◌∙◌, ap, false, ◌||◌, List, [], ◌∷◌, Option, some, none,
  if◌then◌else◌, set, replicate, length, length-set, length-replicate, All, arith, Bool-cases, inl,
  inr,
}
use dastard.Base.Int.{ℤ, pos, ◌+ℤ◌, ◌-ℤ◌, ltb_ℤ, leb_ℤ, eqb_ℤ, pos_part, int_laws, parts_of_eq}
use dastard.Broker.{
  TriggerBroker, new_trigger_broker, member, without, is_outside, sources_of, add_connection,
  delete_connection, emptied, stop_trigger_coupling,
}
use dastard.Broker.Connections.{
  size, NoDup, IsCounted, size-set, All-set, All-get, without-NoDup, length-without,
}

-- The requests of clients. A request in error changes nothing.
pub data Request : Type 0 where
  add delete : ℤ → ℤ → Request
  stop : Request

abbrev or_same : TriggerBroker → Option TriggerBroker → TriggerBroker
or_same b none = b
or_same b (some b') = b'

abbrev pub serve : TriggerBroker → List Request → TriggerBroker
serve b [] = b
serve b (add s r ∷ rs) = serve (or_same b (add_connection b s r)) rs
serve b (delete s r ∷ rs) = serve (or_same b (delete_connection b s r)) rs
serve b (stop ∷ rs) = serve (stop_trigger_coupling b) rs

pub inside-lt :
    (b : TriggerBroker) (r : ℤ)
    → IsCounted b
    → is_outside b r ≡ false
    → pos_part r < length b.sources
inside-lt b r h e = let n = h.each_channel in rw n (lt b.nchannels e)
  where
    lt : (n : ℕ) → ltb_ℤ r (pos 0) || leb_ℤ (pos n) r ≡ false → pos_part r < n
    lt n e = ground arith

add_connection-IsCounted :
    (b : TriggerBroker) (s r : ℤ) → IsCounted b → IsCounted (or_same b (add_connection b s r))
unfolding add_connection
add_connection-IsCounted b s r h = elim (Bool-cases (eqb_ℤ s r)) [
  | inl self ↦ rw self h
  | inr other ↦ elim (Bool-cases (is_outside b r)) [
    | inl outside ↦ rw (other, outside) h
    | inr inside ↦ rw (other, inside) (known (inside-lt b r h inside))
  ]
]
  where
    known :
        pos_part r < length b.sources
        → IsCounted (record b {
          nconnections =
              if member s (sources_of b r) then b.nconnections else b.nconnections +ℤ pos 1;
          sources =
              set b.sources
                (pos_part r)
                (if member s (sources_of b r) then sources_of b r else s ∷ sources_of b r);
        })
    known lt = elim (Bool-cases (member s (sources_of b r))) [
      | inl yes_in ↦ rw yes_in (record {
        counted =
            h.counted ∙ ap pos (omega (arith, size-set b.sources (pos_part r) (sources_of b r) lt));
        each_channel = length-set b.sources (pos_part r) (sources_of b r) ∙ h.each_channel;
        no_dup =
            All-set b.sources (pos_part r) (sources_of b r) h.no_dup
              (All-get b.sources (pos_part r) h.no_dup);
      })
      | inr no_in ↦ rw no_in (record {
        counted =
            let grown = size-set b.sources (pos_part r) (s ∷ sources_of b r) lt in
            omega (int_laws, parts_of_eq _ _ h.counted, grown);
        each_channel = length-set b.sources (pos_part r) (s ∷ sources_of b r) ∙ h.each_channel;
        no_dup =
            All-set b.sources (pos_part r) (s ∷ sources_of b r) h.no_dup
              (no_in, All-get b.sources (pos_part r) h.no_dup);
      })
    ]

delete_connection-IsCounted :
    (b : TriggerBroker) (s r : ℤ) → IsCounted b → IsCounted (or_same b (delete_connection b s r))
unfolding delete_connection
delete_connection-IsCounted b s r h = elim (Bool-cases (is_outside b r)) [
  | inl outside ↦ rw outside h
  | inr inside ↦ rw inside (record {
    counted = fewer (inside-lt b r h inside);
    each_channel = length-set b.sources (pos_part r) (without s (sources_of b r)) ∙ h.each_channel;
    no_dup =
        All-set b.sources (pos_part r) (without s (sources_of b r)) h.no_dup
          (without-NoDup s (sources_of b r) (All-get b.sources (pos_part r) h.no_dup));
  })
]
  where
    fewer :
        pos_part r < length b.sources
        → (if member s (sources_of b r) then b.nconnections -ℤ pos 1 else b.nconnections)
          ≡ pos (size (set b.sources (pos_part r) (without s (sources_of b r))))
    fewer lt =
        let shrunk = size-set b.sources (pos_part r) (without s (sources_of b r)) lt in
        let one = length-without s (sources_of b r) (All-get b.sources (pos_part r) h.no_dup) in
        elim (Bool-cases (member s (sources_of b r))) [
          | inl yes_in ↦
              let one' = rw yes_in at one in
              rw yes_in (omega (int_laws, parts_of_eq _ _ h.counted, shrunk, one'))
          | inr no_in ↦
              let one' = rw no_in at one in
              rw no_in (omega (int_laws, parts_of_eq _ _ h.counted, shrunk, one'))
        ]

stop-IsCounted : (b : TriggerBroker) → IsCounted b → IsCounted (stop_trigger_coupling b)
unfolding stop_trigger_coupling
stop-IsCounted b h = record {
  counted = ap pos (empty b.sources);
  each_channel = same b.sources ∙ h.each_channel;
  no_dup = none_twice b.sources;
}
  where
    empty : (ls : List (List ℤ)) → 0 ≡ size (emptied ls)
    empty [] = refl
    empty (l ∷ ls) = omega (arith, empty ls)

    same : (ls : List (List ℤ)) → length (emptied ls) ≡ length ls
    same [] = refl
    same (l ∷ ls) = ap suc (same ls)

    none_twice : (ls : List (List ℤ)) → All NoDup (emptied ls)
    none_twice [] = tt
    none_twice (l ∷ ls) = (tt, none_twice ls)

new-IsCounted : (n : ℕ) → IsCounted (new_trigger_broker n)
unfolding new_trigger_broker
new-IsCounted n = record {
  counted = ap pos (empty n);
  each_channel = length-replicate n [];
  no_dup = none_twice n;
}
  where
    empty : (n : ℕ) → 0 ≡ size (replicate n [])
    empty zero = refl
    empty (suc n) = omega (arith, empty n)

    none_twice : (n : ℕ) → All NoDup (replicate n [])
    none_twice zero = tt
    none_twice (suc n) = (tt, none_twice n)

serve-IsCounted : (b : TriggerBroker) (rs : List Request) → IsCounted b → IsCounted (serve b rs)
serve-IsCounted b [] h = h
serve-IsCounted b (add s r ∷ rs) h =
    serve-IsCounted (or_same b (add_connection b s r)) rs (add_connection-IsCounted b s r h)
serve-IsCounted b (delete s r ∷ rs) h =
    serve-IsCounted (or_same b (delete_connection b s r)) rs (delete_connection-IsCounted b s r h)
serve-IsCounted b (stop ∷ rs) h = serve-IsCounted (stop_trigger_coupling b) rs (stop-IsCounted b h)

-- After any requests, errors included, the broker of `n` channels has the right number of
-- connections, a set of sources for each channel, and no source twice in a set.
pub requests-IsCounted : (n : ℕ) (rs : List Request) → IsCounted (serve (new_trigger_broker n) rs)
requests-IsCounted n rs = serve-IsCounted _ rs (new-IsCounted n)
