-- ===== src/Audio/Bus/Calls.antt =====
-- The two maps of the bus over any calls, and that `UpdateFilter` never meets a nil subscriber.
use tr_engine.Common.{
  ℕ, suc, ◌≡◌, refl, sym, ap, subst, ◌∙◌, true, false, Option, none, some, inl, inr, List, [], ◌∷◌,
  ◌==◌, nat_comparable, arith, ◌%◌, ◌^◌, ◌<◌, ◌≤◌, Bool-cases, ◌>>=◌,
}
use tr_engine.Common.Map.{
  lookup, insert, delete, modify, lookup-insert, lookup-delete, lookup-modify, lookup-map_values,
  map_option, lookup-Absent,
}
use mathlib.Core.Option.{some-injective}
use tr_engine.Audio.{AudioFrame}
use tr_engine.Audio.Bus.{
  AudioFilter, AudioSubscriber, AudioBus, new_audio_bus, id_after, subscribe, cancel, set_filter,
  update_filter, filter_step, write_filter, send, publish,
}

-- `cancel_call` is the function that the subscription with that channel got.
pub data Call : Type 0 where
  subscribe_call : AudioFilter → Call
  cancel_call : ℕ → Call
  update_call : ℕ → AudioFilter → Call
  publish_call : AudioFrame → Call

abbrev pub apply : Call → AudioBus → Option AudioBus
apply (subscribe_call f) bus = some (subscribe f bus).1
apply (cancel_call ch) bus = some (cancel (ch % 2 ^ 64) ch bus)
apply (update_call ch f) bus = update_filter ch f bus
apply (publish_call frame) bus = some (publish frame bus)

abbrev pub run : List Call → AudioBus → Option AudioBus
run [] bus = some bus
run (c ∷ calls) bus = apply c bus >>= run calls

-- Only subscriptions that were made are cancelled, and fewer than 2 ^ 64 are made.
abbrev pub Allowed : ℕ → List Call → Type 0
Allowed made [] = Unit {0}
Allowed made (subscribe_call f ∷ calls) = (suc made < 2 ^ 64) × Allowed (suc made) calls
Allowed made (cancel_call ch ∷ calls) = (ch ≤ made) × Allowed made calls
Allowed made (update_call ch f ∷ calls) = Allowed made calls
Allowed made (publish_call frame ∷ calls) = Allowed made calls

-- A channel that is in both maps or in neither, under the number of its subscriber.
abbrev pub SlotIsValid : ℕ → Option ℕ → Option AudioSubscriber → Type 0
SlotIsValid k none none = Unit {0}
SlotIsValid k none (some sub) = ⊥
SlotIsValid k (some id) none = ⊥
SlotIsValid k (some id) (some sub) = (id ≡ k) × (sub.ch ≡ k)

abbrev pub At : ℕ → AudioBus → Type 0
At k bus = SlotIsValid k (lookup k bus.ch_to_id) (lookup k bus.subscribers)

pub record IsValid (bus : AudioBus) : Type 0 where
  pub numbered : bus.next_id ≡ bus.made
  pub small : bus.made < 2 ^ 64
  pub slots : (k : ℕ) → At k bus

insert-SlotIsValid :
    (n id k : ℕ) (sub : AudioSubscriber) (bus : AudioBus)
    → id ≡ n
    → sub.ch ≡ n
    → At k bus
    → SlotIsValid k (lookup k (insert n id bus.ch_to_id)) (lookup k (insert id sub bus.subscribers))
insert-SlotIsValid n id k sub bus e c v = elim (Bool-cases (n == k)) [
  | inl is ↦
      let also : (id == k) ≡ true = ground (arith, e, is) in
      rw (lookup-insert n k id bus.ch_to_id, lookup-insert id k sub bus.subscribers, is, also)
        (ground (arith, e, is), c ∙ ground (arith, is))
  | inr is ↦
      let also : (id == k) ≡ false = ground (arith, e, is) in
      rw (lookup-insert n k id bus.ch_to_id, lookup-insert id k sub bus.subscribers, is, also) v
]

subscribe-IsValid :
    (f : AudioFilter) (bus : AudioBus)
    → suc bus.made < 2 ^ 64
    → IsValid bus
    → IsValid (subscribe f bus).1
unfolding subscribe
subscribe-IsValid f bus h v =
    let id : id_after bus.next_id ≡ suc bus.made = ground (arith, v.numbered, h) in
    record {
      numbered = id;
      small = h;
      slots =
          λ k. insert-SlotIsValid (suc bus.made) (id_after bus.next_id) k _ bus id refl (v.slots k);
    }

cancel-IsValid :
    (ch : ℕ) (bus : AudioBus) → ch ≤ bus.made → IsValid bus → IsValid (cancel (ch % 2 ^ 64) ch bus)
unfolding cancel
cancel-IsValid ch bus h v =
    let id : ch % 2 ^ 64 ≡ ch = ground (arith, h, v.small) in
    record { numbered = v.numbered; small = v.small; slots = λ k. delete_slot (ch % 2 ^ 64) k id }
  where
    delete_slot :
        (id k : ℕ)
        → id ≡ ch
        → SlotIsValid k (lookup k (delete ch bus.ch_to_id)) (lookup k (delete id bus.subscribers))
    delete_slot id k e = elim (Bool-cases (ch == k)) [
      | inl is ↦
          let also : (id == k) ≡ true = ground (arith, e, is) in
          rw (lookup-delete ch k bus.ch_to_id, lookup-delete id k bus.subscribers, is, also) tt
      | inr is ↦
          let also : (id == k) ≡ false = ground (arith, e, is) in
          rw (lookup-delete ch k bus.ch_to_id, lookup-delete id k bus.subscribers, is, also)
            (v.slots k)
    ]

map_option-SlotIsValid :
    (k : ℕ) (g : AudioSubscriber → AudioSubscriber) (o : Option ℕ) (s : Option AudioSubscriber)
    → ((sub : AudioSubscriber) → (g sub).ch ≡ sub.ch)
    → SlotIsValid k o s
    → SlotIsValid k o (map_option g s)
map_option-SlotIsValid k g none none h v = tt
map_option-SlotIsValid k g none (some sub) h v = v
map_option-SlotIsValid k g (some id) none h v = v
map_option-SlotIsValid k g (some id) (some sub) h v = (v.0, h sub ∙ v.1)

pub send_ch : (frame : AudioFrame) (sub : AudioSubscriber) → (send frame sub).ch ≡ sub.ch
unfolding send
send_ch frame sub = ground arith

publish-IsValid : (frame : AudioFrame) (bus : AudioBus) → IsValid bus → IsValid (publish frame bus)
unfolding publish
publish-IsValid frame bus v = record {
  numbered = v.numbered;
  small = v.small;
  slots = λ k.
      rw (lookup-map_values (λ id sub. send frame sub) k bus.subscribers)
        (map_option-SlotIsValid k (send frame) _ _ (send_ch frame) (v.slots k));
}

slot_there :
    (k id : ℕ) (o : Option ℕ) (s : Option AudioSubscriber)
    → SlotIsValid k o s
    → o ≡ some id
    → (id ≡ k) × ((sub : AudioSubscriber) × (s ≡ some sub))
slot_there k id none none v h = absurd (cc (h))
slot_there k id none (some sub) v h = absurd v
slot_there k id (some i) none v h = absurd v
slot_there k id (some i) (some sub) v h = (sym (some-injective _ _ h) ∙ v.0, (sub, refl))

modify-SlotIsValid :
    (id k : ℕ) (f : AudioFilter) (bus : AudioBus)
    → At k bus
    → SlotIsValid k (lookup k bus.ch_to_id) (lookup k (modify id (set_filter f) bus.subscribers))
modify-SlotIsValid id k f bus v = elim (Bool-cases (id == k)) [
  | inl is ↦
      let same : id ≡ k = ground (arith, is) in
      let slot =
        lookup-modify id k (set_filter f) bus.subscribers
        ∙ (rw is refl)
        ∙ ap (λ j. map_option (set_filter f) (lookup j bus.subscribers)) same in
      subst (SlotIsValid k (lookup k bus.ch_to_id)) (sym slot)
        (map_option-SlotIsValid k (set_filter f) _ _ (λ sub. refl) v)
  | inr is ↦ rw (lookup-modify id k (set_filter f) bus.subscribers, is) v
]

-- The write goes to a subscriber that is there.
update_filter-IsValid :
    (ch : ℕ) (f : AudioFilter) (bus : AudioBus)
    → IsValid bus
    → (bus' : AudioBus) × (update_filter ch f bus ≡ some bus')
      × (bus'.made ≡ bus.made)
      × IsValid bus'
unfolding update_filter
update_filter-IsValid ch f bus v = by_slot (lookup ch bus.ch_to_id) refl
  where
    by_slot :
        (o : Option ℕ)
        → lookup ch bus.ch_to_id ≡ o
        → (bus' : AudioBus) × (filter_step f bus o ≡ some bus')
          × (bus'.made ≡ bus.made)
          × IsValid bus'
    by_slot none e = (bus, refl, refl, v)
    by_slot (some id) e =
        let there = slot_there ch id _ _ (v.slots ch) e in
        let found : lookup id bus.subscribers ≡ some there.1.0 =
          ap (λ j. lookup j bus.subscribers) there.0 ∙ there.1.1 in
        (
          record bus { subscribers = modify id (set_filter f) bus.subscribers },
          ap (write_filter id f bus) found,
          refl,
          record {
            numbered = v.numbered;
            small = v.small;
            slots = λ k. modify-SlotIsValid id k f bus (v.slots k);
          },
        )

-- From a valid bus on: no call panics, and the bus stays valid.
run-IsValid :
    (calls : List Call) (bus : AudioBus)
    → IsValid bus
    → Allowed bus.made calls
    → (bus' : AudioBus) × (run calls bus ≡ some bus') × IsValid bus'
unfolding subscribe cancel publish
run-IsValid [] bus v a = (bus, refl, v)
run-IsValid (subscribe_call f ∷ calls) bus v a =
    run-IsValid calls (subscribe f bus).1 (subscribe-IsValid f bus a.0 v) a.1
run-IsValid (cancel_call ch ∷ calls) bus v a =
    run-IsValid calls (cancel (ch % 2 ^ 64) ch bus) (cancel-IsValid ch bus a.0 v) a.1
run-IsValid (update_call ch f ∷ calls) bus v a =
    let (next, done, made, valid) = update_filter-IsValid ch f bus v in
    let (last, ran, end) =
      run-IsValid calls next valid (subst (λ n. Allowed n calls) (sym made) a) in
    (last, ap (λ o. o >>= run calls) done ∙ ran, end)
run-IsValid (publish_call frame ∷ calls) bus v a =
    run-IsValid calls (publish frame bus) (publish-IsValid frame bus v) a

-- From a new bus on, over any calls of Subscribe, UpdateFilter, Publish and of the functions that
-- Subscribe returned, fewer than 2 ^ 64 of them of Subscribe: no UpdateFilter meets a nil subscriber,
-- and every channel is in both maps or in neither, under one number.
pub run-start-IsValid :
    (calls : List Call)
    → Allowed 0 calls
    → (bus : AudioBus) × (run calls new_audio_bus ≡ some bus) × IsValid bus
run-start-IsValid calls a = run-IsValid calls new_audio_bus start a
  where
    start : IsValid new_audio_bus
    start = record {
      numbered = refl;
      small = ground arith;
      slots =
          λ k. rw (lookup-Absent {V = ℕ} k [] tt, lookup-Absent {V = AudioSubscriber} k [] tt) tt;
    }
