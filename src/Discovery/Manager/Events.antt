-- ===== src/Discovery/Manager/Events.antt =====
-- What holds of a manager after any sequence of calls.
use cmw.Prelude.{
  ◌⊎◌, inl, ℕ, ◌≡◌, refl, sym, ap, ◌∙◌, Bool, true, false, List, [], ◌∷◌, ◌++◌, arith, All,
  All-append, append_assoc, append-nil, not, if◌then◌else◌,
}
use cmw.Prelude.Assoc.{Text, text_eq}
use cmw.Discovery.Role.{RoleAttributes}
use cmw.Discovery.Change.{ChangeMsg, RoleType, OperateType, opt_join, opt_leave}
use cmw.Discovery.Manager.{
  Virtual, Manager, convert, notify, is_from_same_process, write, shutdown, stop_discovery,
  dispose_msg, join, leave, on_remote_change, is_allowed,
}

-- `OnTopoModuleLeave` of a subclass: the clock, what stands in the attributes that it does not set, and the
-- host and the process that are gone.
abbrev pub TopoLeave : Type 0 → Type 0
TopoLeave S = (RoleAttributes → ℕ) → RoleAttributes → Text → ℕ → Manager S → Manager S

-- The calls of a manager
pub data Event : Type 0 where
  joins : ℕ → RoleAttributes → RoleType → Bool → Event
  leaves : ℕ → RoleAttributes → RoleType → Event
  hears : ChangeMsg → Event
  shuts_down : Event
  process_leaves : (RoleAttributes → ℕ) → RoleAttributes → Text → ℕ → Event

module _ {S : Type 0} (v : Virtual S) (topo : TopoLeave S) where
  unfoldable pub handle : Event → Manager S → Manager S
  unfolding join leave on_remote_change shutdown
  handle (joins now attr role need_write) m = (join v now attr role need_write m).1
  handle (leaves now attr role) m = (leave v now attr role m).1
  handle (hears msg) m = on_remote_change v msg m
  handle shuts_down m = shutdown m
  handle (process_leaves clock unset host process) m = topo clock unset host process m

  unfoldable pub handle_all : List Event → Manager S → Manager S
  unfolding handle
  handle_all [] m = m
  handle_all (e ∷ es) m = handle_all es (handle e m)

module _ {S : Type 0} (v : Virtual S) where
  -- The subclass's state after the messages
  abbrev pub replay : List ChangeMsg → S → S
  replay [] s = s
  replay (msg ∷ msgs) s = replay msgs (v.dispose msg s)

  -- A message that passes the test, or that tells of a leave
  abbrev pub IsSound : ChangeMsg → Type 0
  IsSound msg = (v.check msg.role_attr ≡ true) ⊎ (msg.operate_type ≡ opt_leave)

  -- The messages of which the listeners are told, which make the state, and each of whose joins passes the
  -- test.
  pub record Told (before after : Manager S) : Type 0 where
    pub told : List ChangeMsg
    pub notices : after.notified ≡ before.notified ++ told
    pub state : after.own ≡ replay told before.own
    pub checked : All IsSound told

  replay-append : (xs ys : List ChangeMsg) (s : S) → replay (xs ++ ys) s ≡ replay ys (replay xs s)
  replay-append [] ys s = refl
  replay-append (x ∷ xs) ys s = replay-append xs ys (v.dispose x s)

  pub Told-trans : {a b c : Manager S} → Told a b → Told b c → Told a c
  Told-trans {a} {b} {c} p q = record {
    told = p.told ++ q.told;
    notices = rw (q.notices, p.notices) (append_assoc a.notified p.told q.told);
    state = q.state ∙ ap (replay q.told) p.state ∙ sym (replay-append p.told q.told a.own);
    checked = All-append _ p.told q.told p.checked q.checked;
  }

  -- What changes neither the notices nor the subclass's state
  pub quiet-Told : {a b : Manager S} → b.notified ≡ a.notified → b.own ≡ a.own → Told a b
  quiet-Told {a} same state = record {
    told = [];
    notices = same ∙ sym (append-nil a.notified);
    state = state;
    checked = tt;
  }

  pub dispose-Told : (msg : ChangeMsg) (m : Manager S) → IsSound msg → Told m (dispose_msg v msg m)
  unfolding dispose_msg notify
  dispose-Told msg m ok = record {
    told = msg ∷ [];
    notices = refl;
    state = refl;
    checked = (ok, tt);
  }

  write-Told : (msg : ChangeMsg) {a b : Manager S} → Told a b → Told a (write msg b).1
  write-Told msg {a} {b} p =
      Told-trans p (quiet-Told (unfold write in ground arith) (unfold write in ground arith))

  convert_check :
      (now : ℕ) (attr : RoleAttributes) (role : RoleType) (opt : OperateType) (m : Manager S)
      → v.check attr ≡ true
      → v.check (convert now attr role opt m).role_attr ≡ true
  unfolding convert
  convert_check now attr role opt m ok = v.check_filled m.host_name m.process_id attr ∙ ok

  -- Each branch of a test
  pub if-Told :
      (c : Bool) {a x y : Manager S}
      → (c ≡ true → Told a x)
      → (c ≡ false → Told a y)
      → Told a (if c then x else y)
  if-Told true p q = p refl
  if-Told false p q = q refl

  guard-Told :
      (c : Bool) {a : Manager S} (x y : Bool × Manager S)
      → (c ≡ true → Told a x.1)
      → (c ≡ false → Told a y.1)
      → Told a (if c then x else y).1
  guard-Told true x y p q = p refl
  guard-Told false x y p q = q refl

  join-Told :
      (now : ℕ) (attr : RoleAttributes) (role : RoleType) (need_write : Bool) (m : Manager S)
      → Told m (join v now attr role need_write m).1
  unfolding join
  join-Told now attr role need_write m =
      guard-Told m.is_shutdown _ _ (λ _. quiet-Told refl refl)
        (λ _.
          guard-Told (not (is_allowed m.allowed_role role)) _ _ (λ _. quiet-Told refl refl)
            (λ _.
              guard-Told (not (v.check attr)) _ _ (λ _. quiet-Told refl refl)
                (λ ok. guard-Told need_write _ _ (λ _. write-Told _ (told ok)) (λ _. told ok))))
    where
      told :
          not (v.check attr) ≡ false → Told m (dispose_msg v (convert now attr role opt_join m) m)
      told ok = dispose-Told _ m (inl (convert_check now attr role opt_join m (ground arith)))

  leave-Told :
      (now : ℕ) (attr : RoleAttributes) (role : RoleType) (m : Manager S)
      → Told m (leave v now attr role m).1
  unfolding leave
  leave-Told now attr role m =
      guard-Told m.is_shutdown _ _ (λ _. quiet-Told refl refl)
        (λ _.
          guard-Told (not (is_allowed m.allowed_role role)) _ _ (λ _. quiet-Told refl refl)
            (λ _.
              guard-Told (not (v.check attr)) _ _ (λ _. quiet-Told refl refl)
                (λ ok. write-Told _ (
                  dispose-Told _ m
                    (inl (convert_check now attr role opt_leave m (ground arith)))))))

  hear-Told : (msg : ChangeMsg) (m : Manager S) → Told m (on_remote_change v msg m)
  unfolding on_remote_change
  hear-Told msg m =
      if-Told m.is_shutdown (λ _. quiet-Told refl refl)
        (λ _.
          if-Told (is_from_same_process msg m) (λ _. quiet-Told refl refl)
            (λ _.
              if-Told (not (v.check msg.role_attr)) (λ _. quiet-Told refl refl)
                (λ ok. dispose-Told msg m (inl (ground arith)))))

module _ {S : Type 0} (v : Virtual S) (topo : TopoLeave S)
    (topo-Told : (clock : RoleAttributes → ℕ) (unset : RoleAttributes) (host : Text) (process : ℕ)
        (m : Manager S)
      → Told v m (topo clock unset host process m)) where
  handle-Told : (e : Event) (m : Manager S) → Told v m (handle v topo e m)
  unfolding handle shutdown stop_discovery
  handle-Told (joins now attr role need_write) m = join-Told v now attr role need_write m
  handle-Told (leaves now attr role) m = leave-Told v now attr role m
  handle-Told (hears msg) m = hear-Told v msg m
  handle-Told shuts_down m =
      if-Told v m.is_shutdown (λ _. quiet-Told v refl refl)
        (λ _.
          if-Told v m.is_discovery_started (λ _. quiet-Told v refl refl)
            (λ _. quiet-Told v refl refl))
  handle-Told (process_leaves clock unset host process) m = topo-Told clock unset host process m

  pub handle_all-Told : (es : List Event) (m : Manager S) → Told v m (handle_all v topo es m)
  unfolding handle_all
  handle_all-Told [] m = quiet-Told v refl refl
  handle_all-Told (e ∷ es) m =
      Told-trans v (handle-Told e m) (handle_all-Told es (handle v topo e m))
