-- ===== src/Broker/Effects.antt =====
-- Which channels are connected after a request.
use dastard.Base.{
  ℕ, ◌≡◌, ◌≢◌, refl, sym, ◌∙◌, Bool, false, ◌&&◌, ◌||◌, not, List, [], ◌∷◌, some, if◌then◌else◌,
  get_or, set, arith, Bool-cases, inl, inr,
}
use dastard.Base.Int.{ℤ, pos, ◌+ℤ◌, ◌-ℤ◌, ltb_ℤ, leb_ℤ, eqb_ℤ, pos_part}
use dastard.Broker.{
  TriggerBroker, member, without, is_outside, sources_of, add_connection, delete_connection,
  is_connected,
}
use dastard.Broker.Connections.{
  IsCounted, get_or-set_self, get_or-set_ne, eqb_eq, eqb_refl, member-without,
}
use dastard.Broker.Requests.{inside-lt}

-- The sources of one receiver replaced.
with_sources : TriggerBroker → ℤ → List ℤ → ℤ → ℤ → Bool
with_sources b r l s' r' =
    if is_outside b r'
    then false
    else member s' (get_or (set b.sources (pos_part r) l) (pos_part r') [])

distinct :
    (n : ℕ) (r r' : ℤ)
    → ltb_ℤ r (pos 0) || leb_ℤ (pos n) r ≡ false
    → ltb_ℤ r' (pos 0) || leb_ℤ (pos n) r' ≡ false
    → eqb_ℤ r r' ≡ false
    → pos_part r ≢ pos_part r'
distinct n r r' i i' ne e = ground arith

with_sources_lem :
    (b : TriggerBroker) (r : ℤ) (l : List ℤ) (s' r' : ℤ)
    → IsCounted b
    → is_outside b r ≡ false
    → with_sources b r l s' r' ≡ (if eqb_ℤ r r' then member s' l else is_connected b s' r')
unfolding with_sources is_connected
with_sources_lem b r l s' r' h inside = elim (Bool-cases (eqb_ℤ r r')) [
  | inl same ↦
      let e = eqb_eq r r' same in
      let lt = inside-lt b r h inside in
      rw (sym e) (rw (inside, get_or-set_self b.sources (pos_part r) l lt, eqb_refl r) refl)
  | inr other ↦ elim (Bool-cases (is_outside b r')) [
    | inl out ↦ rw (other, out)
    | inr in_range ↦ rw (
      other,
      in_range,
      get_or-set_ne b.sources (pos_part r) (pos_part r') l
          (distinct b.nchannels r r' inside in_range other),
    )
  ]
]

-- The broker with one connection more, and with one fewer.
abbrev more : TriggerBroker → ℤ → ℤ → TriggerBroker
more b s r =
    let known : Bool = member s (sources_of b r) in
    record b {
      nconnections = if known then b.nconnections else b.nconnections +ℤ pos 1;
      sources = set b.sources (pos_part r) (if known then sources_of b r else s ∷ sources_of b r);
    }

abbrev fewer : TriggerBroker → ℤ → ℤ → TriggerBroker
fewer b s r = record b {
  nconnections = if member s (sources_of b r) then b.nconnections -ℤ pos 1 else b.nconnections;
  sources = set b.sources (pos_part r) (without s (sources_of b r));
}

-- Adding a connection between two channels, the receiver one of the broker's, succeeds; after it
-- exactly that connection and those of before are there. Deleting one succeeds, and exactly
-- that connection is gone.
pub connections_after :
    (b : TriggerBroker) (s r : ℤ)
    → IsCounted b
    → is_outside b r ≡ false
    → ((s ≢ r)
        → (b' : TriggerBroker) × (add_connection b s r ≡ some b')
          × ((s' r' : ℤ)
              → is_connected b' s' r' ≡ (eqb_ℤ r r' && eqb_ℤ s' s) || is_connected b s' r'))
      × ((b' : TriggerBroker) × (delete_connection b s r ≡ some b')
          × ((s' r' : ℤ)
              → is_connected b' s' r' ≡ not (eqb_ℤ r r' && eqb_ℤ s s') && is_connected b s' r'))
unfolding add_connection delete_connection is_connected with_sources
connections_after b s r h inside = (
  λ ne.
      let other : eqb_ℤ s r ≡ false = ground arith in
      (
        more b s r,
        rw (other, inside) refl,
        λ s' r'. with_sources_lem b r _ s' r' h inside ∙ added s' r',
      ),
  (fewer b s r, rw inside refl, λ s' r'. with_sources_lem b r _ s' r' h inside ∙ deleted s' r'),
)
  where
    now : (s' : ℤ) → is_connected b s' r ≡ member s' (sources_of b r)
    now s' = rw inside refl

    grown :
        (s' : ℤ)
        → member s' (if member s (sources_of b r) then sources_of b r else s ∷ sources_of b r)
          ≡ eqb_ℤ s' s || member s' (sources_of b r)
    grown s' = elim (Bool-cases (member s (sources_of b r))) [
      | inl known ↦ elim (Bool-cases (eqb_ℤ s' s)) [
        | inl e ↦ rw (known, e) (rw (eqb_eq s' s e) known)
        | inr e ↦ rw (known, e)
      ]
      | inr fresh ↦ rw fresh
    ]

    added :
        (s' r' : ℤ)
        → (if eqb_ℤ r r'
            then member s'
                (if member s (sources_of b r) then sources_of b r else s ∷ sources_of b r)
            else is_connected b s' r')
          ≡ (eqb_ℤ r r' && eqb_ℤ s' s) || is_connected b s' r'
    added s' r' = elim (Bool-cases (eqb_ℤ r r')) [
      | inl same ↦ let e = eqb_eq r r' same in rw same (rw (sym e) (rw (now s') (grown s')))
      | inr other ↦ rw other refl
    ]

    deleted :
        (s' r' : ℤ)
        → (if eqb_ℤ r r' then member s' (without s (sources_of b r)) else is_connected b s' r')
          ≡ not (eqb_ℤ r r' && eqb_ℤ s s') && is_connected b s' r'
    deleted s' r' = elim (Bool-cases (eqb_ℤ r r')) [
      | inl same ↦
          let e = eqb_eq r r' same in
          rw same (rw (sym e) (rw (now s') (member-without s' s (sources_of b r))))
      | inr other ↦ rw other refl
    ]
