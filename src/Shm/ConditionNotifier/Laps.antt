-- ===== src/Shm/ConditionNotifier/Laps.antt =====
-- What a listener hears of the notices, also when the notifiers are laps ahead.
use cmw.Prelude.{
  ℕ, ◌+◌, ◌-◌, ◌*◌, ◌/◌, ◌%◌, ◌^◌, ◌≡◌, ◌≢◌, ◌<◌, ◌≤◌, refl, sym, ap, ◌∙◌, Bool, true, false, List,
  [], ◌∷◌, ◌++◌, Option, none, some, ◌==◌, ltb, ltb→lt, leb, if◌then◌else◌, get_elem?, set, length,
  length-set, length-append, length-replicate, get_elem?-set_self, get_elem?-set_ne,
  get_elem?-append_left, get_elem?-append_end, drop_at, append-nil, append_assoc, subst, arith,
  mod-ne, add64,
}
use native.Mathlib.Decide.{ℕ_discrete}
use cmw.Shm.ReadableInfo.{ReadableInfo, no_info}
use cmw.Shm.ConditionNotifier.{
  Indicator, ConditionNotifier, new_indicator, notify, read_notice, listen_turn, listen, after_turn,
  Heard, heard, returned_false, unfinished,
}

-- The memory after the notices `h`: the last lap of them is there.
pub record Holds (i : Indicator) (h : List ReadableInfo) : Type 0 where
  pub counted : i.next_seq ≡ length h
  pub infos_size : length i.infos ≡ 4096
  pub seqs_size : length i.seqs ≡ 4096
  pub last_lap :
      (j : ℕ)
      → j < length h
      → length h ≤ j + 4096
      → (get_elem? i.seqs (j % 4096) ≡ some j) × (get_elem? i.infos (j % 4096) ≡ get_elem? h j)

new-Holds : Holds new_indicator []
new-Holds = record {
  counted = refl;
  infos_size = length-replicate 4096 no_info;
  seqs_size = length-replicate {A = ℕ} 4096 0;
  last_lap = λ j lt le. absurd (omega arith);
}

module _ (info : ReadableInfo) (i : Indicator) (h : List ReadableInfo) (w : Holds i h) where
  abbrev idx : ℕ
  idx = length h % 4096

  abbrev noticed : Indicator
  noticed = record {
    next_seq = length h + 1;
    infos = set i.infos idx info;
    seqs = set i.seqs idx (length h);
  }

  abbrev Noted : ℕ → Type 0
  Noted j =
      (get_elem? noticed.seqs (j % 4096) ≡ some j)
      × (get_elem? noticed.infos (j % 4096) ≡ get_elem? (h ++ info ∷ []) j)

  noticed_here : Noted (length h)
  noticed_here = (
    get_elem?-set_self i.seqs idx (length h) (omega (arith, w.seqs_size)),
    get_elem?-set_self i.infos idx info (omega (arith, w.infos_size))
        ∙ sym (get_elem?-append_end h info),
  )

  noticed-lap : (j : ℕ) → j < length h + 1 → length h + 1 ≤ j + 4096 → Noted j
  noticed-lap j lt le = elim (ℕ_discrete j (length h)) [
    | yes e ↦ subst Noted (sym e) noticed_here
    | no ne ↦
        let below : j < length h = omega arith in
        let apart : idx ≢ j % 4096 = λ e. mod-ne j (length h) 4096 below (omega arith) (sym e) in
        let (at_seqs, at_infos) = w.last_lap j below (omega arith) in
        (
          get_elem?-set_ne i.seqs (length h) apart ∙ at_seqs,
          get_elem?-set_ne i.infos info apart
              ∙ at_infos
              ∙ sym (get_elem?-append_left h (info ∷ []) j below),
        )
  ]

  noticed-Holds : Holds noticed (h ++ info ∷ [])
  noticed-Holds =
      let longer : length (h ++ info ∷ []) ≡ length h + 1 =
        omega (arith, length-append h (info ∷ [])) in
      record {
        counted = sym longer;
        infos_size = length-set i.infos idx info ∙ w.infos_size;
        seqs_size = length-set i.seqs idx (length h) ∙ w.seqs_size;
        last_lap = λ j lt le. noticed-lap j (omega (arith, longer)) (omega (arith, longer));
      }

  notify-eq :
      (n : ConditionNotifier)
      → n.is_shutdown ≡ false
      → length h + 1 < 2 ^ 64
      → notify info n i ≡ (noticed, true)
  unfolding notify
  notify-eq n on lt =
      let next : add64 (length h) 1 ≡ length h + 1 = omega arith in rw (on, w.counted, next) refl

-- Notices one after the other
unfoldable pub notify_all : ConditionNotifier → List ReadableInfo → Indicator → Indicator
notify_all n [] i = i
notify_all n (info ∷ infos) i = notify_all n infos (notify info n i).0

notify_all-Holds :
    (n : ConditionNotifier) (infos : List ReadableInfo) (i : Indicator) (h : List ReadableInfo)
    → n.is_shutdown ≡ false
    → Holds i h
    → length h + length infos < 2 ^ 64
    → Holds (notify_all n infos i) (h ++ infos)
unfolding notify_all
notify_all-Holds n [] i h on w lt = subst (Holds i) (sym (append-nil h)) w
notify_all-Holds n (info ∷ infos) i h on w lt =
    let e = notify-eq info i h w n on (omega arith) in
    let rest =
      notify_all-Holds n infos (noticed info i h w) (h ++ info ∷ []) on (noticed-Holds info i h w)
        (omega (arith, length-append h (info ∷ []))) in
    rw e (subst (Holds _) (append_assoc h (info ∷ []) infos) rest)

-- The newest notice in the slot of number `next`, of `n` notices
abbrev pub newest_in_slot : (next n : ℕ) → ℕ
newest_in_slot next n = next + 4096 * ((n - 1 - next) / 4096)

module _ (i : Indicator) (h : List ReadableInfo) (w : Holds i h) (next : ℕ) where
  turn_quiet : next ≡ length h → listen_turn next i ≡ some none
  unfolding listen_turn
  turn_quiet e = let same : (i.next_seq == next) ≡ true = ground (arith, w.counted) in rw same refl

  turn_heard :
      (m : ReadableInfo)
      → next < length h
      → length h < 2 ^ 64
      → get_elem? h (newest_in_slot next (length h)) ≡ some m
      → listen_turn next i ≡ some (some (m, newest_in_slot next (length h) + 1))
  unfolding listen_turn read_notice
  turn_heard m lt bound e =
      let j = newest_in_slot next (length h) in
      let below : j < length h = omega arith in
      let recent : length h ≤ j + 4096 = omega arith in
      let slot : j % 4096 ≡ next % 4096 = omega arith in
      let (at_seqs, at_infos) = w.last_lap j below recent in
      let differs : (i.next_seq == next) ≡ false = ground (arith, w.counted) in
      let seq : get_elem? i.seqs (next % 4096) ≡ some j =
        ap (get_elem? i.seqs) (sym slot) ∙ at_seqs in
      let info : get_elem? i.infos (next % 4096) ≡ some m =
        ap (get_elem? i.infos) (sym slot) ∙ at_infos ∙ e in
      let not_before : leb next j ≡ true = ground arith in
      let no_wrap : add64 j 1 ≡ j + 1 = omega arith in
      rw (differs, seq, info, not_before, no_wrap) refl

-- After any notices, made one after the other by a notifier that is not shut down and fewer than 2^64, a
-- call of `Listen` with the number of a notice returns at once. It hears the newest notice whose slot
-- that number has, which is the notice with that number if the notifiers are no full lap ahead, and it
-- goes on with the number after.
pub listen_lem :
    (n : ConditionNotifier) (h : List ReadableInfo) (next timeout_us : ℕ)
    (later : List (Bool × Indicator))
    → n.is_shutdown ≡ false
    → length h < 2 ^ 64
    → next < length h
    → (m : ReadableInfo) × (get_elem? h (newest_in_slot next (length h)) ≡ some m)
      × (listen next timeout_us ((false, notify_all n h new_indicator) ∷ later)
          ≡ heard m (newest_in_slot next (length h) + 1))
unfolding listen
listen_lem n h next timeout_us later on bound lt =
    let i = notify_all n h new_indicator in
    let w = notify_all-Holds n h new_indicator [] on new-Holds (omega arith) in
    let below : newest_in_slot next (length h) < length h = omega arith in
    let (m, here, rest) = drop_at h (newest_in_slot next (length h)) below in
    (m, here, rw (turn_heard i h w next m lt bound here) refl)

cond_ends :
    (b : Bool) (x y : Heard)
    → (b ≡ true → x ≢ unfinished)
    → (b ≡ false → y ≢ unfinished)
    → (if b then x else y) ≢ unfinished
cond_ends true x y hx hy = hx refl
cond_ends false x y hx hy = hy refl

turn_ends :
    (o : Option (Option (ReadableInfo × ℕ))) (wait : Heard)
    → wait ≢ unfinished
    → after_turn o wait ≢ unfinished
unfolding after_turn
turn_ends none wait h = λ e. cc
turn_ends (some (some (info, next))) wait h = λ e. cc
turn_ends (some none) wait h = h

-- Each turn that finds nothing takes 50 microseconds off: a call of `Listen` is over after as many turns
-- as make up its time, and one, whatever is in the memory at each.
pub listen_ends :
    (next timeout_us : ℕ) (turns : List (Bool × Indicator))
    → timeout_us + 50 ≤ 50 * length turns
    → listen next timeout_us turns ≢ unfinished
unfolding listen
listen_ends next timeout_us [] le = absurd (omega arith)
listen_ends next timeout_us ((shut, i) ∷ later) le =
    cond_ends shut returned_false _ (λ s e. cc)
      (λ s. turn_ends (listen_turn next i) _ (
        cond_ends (ltb 0 timeout_us) _ returned_false
          (λ more.
            let some_left = ltb→lt 0 timeout_us more in
            listen_ends next (timeout_us - 50) later (omega arith))
          (λ over e. cc)))
