-- ===== src/Driver/Handles.antt =====
-- core/driver.c: every handle that is opened is closed again, the last one first.
use libhwsense.Prelude.{
  ℕ, zero, suc, ◌≡◌, refl, sym, subst, Bool, true, false, Option, none, some, List, [], ◌∷◌, ◌++◌,
  ◌==◌, if◌then◌else◌, arith,
}
use libhwsense.Text.{Bytes}
use libhwsense.Driver.{
  Handle, scm, service, device, Event, opened, closed, stopped, deleted, service_exists,
  marked_for_delete, create_failed, Created, created, not_created, Started, started,
  already_running, start_failed, Os, Ran, after, Ctx, on_started, start, start_opened, stop_stale,
  on_created, install, install_and_start_driver, tear_down, on_calloc, on_device, on_service,
  on_manager, close_driver, end_service, close_manager, init, shutdown,
}

abbrev same_handle : Handle → Handle → Bool
same_handle (scm m) (scm n) = m == n
same_handle (service m) (service n) = m == n
same_handle (device m) (device n) = m == n
same_handle a b = false

abbrev on_top : Handle → List Handle → Bool
on_top h [] = false
on_top h (top ∷ hs) = same_handle h top

abbrev popped : List Handle → List Handle
popped [] = []
popped (top ∷ hs) = hs

-- The open handles behind some events, the last one first; `none` when a handle is stopped, deleted or
-- closed that is not the last one open.
unfoldable pub replay : List Event → List Handle → Option (List Handle)
replay [] hs = some hs
replay (opened h ∷ es) hs = replay es (h ∷ hs)
replay (closed h ∷ es) hs = if on_top h hs then replay es (popped hs) else none
replay (stopped h ∷ es) hs = if on_top h hs then replay es hs else none
replay (deleted h ∷ es) hs = if on_top h hs then replay es hs else none

abbrev pub Leaves : List Event → List Handle → List Handle → Type 0
Leaves es hs hs' = replay es hs ≡ some hs'

guarded :
    (b : Bool) (o o' : Option (List Handle)) (hs hs' : List Handle)
    → (o ≡ some hs → o' ≡ some hs')
    → (if b then o else none) ≡ some hs
    → (if b then o' else none) ≡ some hs'
guarded true o o' hs hs' f h = f h
guarded false o o' hs hs' f h = absurd (cc)

some_inj : (hs hs' : List Handle) → some hs ≡ some hs' → hs ≡ hs'
some_inj hs hs' e = cc

Leaves-append :
    (es es' : List Event) (hs hs' hs'' : List Handle)
    → Leaves es hs hs'
    → Leaves es' hs' hs''
    → Leaves (es ++ es') hs hs''
unfolding replay
Leaves-append [] es' hs hs' hs'' h k = subst (λ x. Leaves es' x hs'') (sym (some_inj hs hs' h)) k
Leaves-append (opened x ∷ es) es' hs hs' hs'' h k = Leaves-append es es' (x ∷ hs) hs' hs'' h k
Leaves-append (closed x ∷ es) es' hs hs' hs'' h k =
    guarded (on_top x hs) _ _ hs' hs'' (λ e. Leaves-append es es' (popped hs) hs' hs'' e k) h
Leaves-append (stopped x ∷ es) es' hs hs' hs'' h k =
    guarded (on_top x hs) _ _ hs' hs'' (λ e. Leaves-append es es' hs hs' hs'' e k) h
Leaves-append (deleted x ∷ es) es' hs hs' hs'' h k =
    guarded (on_top x hs) _ _ hs' hs'' (λ e. Leaves-append es es' hs hs' hs'' e k) h

same : (h : Handle) → same_handle h h ≡ true
same (scm n) = ground arith
same (service n) = ground arith
same (device n) = ground arith

nothing-Leaves : (hs : List Handle) → Leaves [] hs hs
unfolding replay
nothing-Leaves hs = refl

open-Leaves : (h : Handle) (hs : List Handle) → Leaves (opened h ∷ []) hs (h ∷ hs)
unfolding replay
open-Leaves h hs = refl

-- the events of one handle
stale-Leaves : (h : Handle) (hs : List Handle) → Leaves (opened h ∷ stopped h ∷ closed h ∷ []) hs hs
unfolding replay
stale-Leaves h hs = rw (same h, replay)

close-Leaves :
    (h : Handle) (hs : List Handle) (es : List Event) (hs' : List Handle)
    → Leaves es hs hs'
    → Leaves (closed h ∷ es) (h ∷ hs) hs'
unfolding replay
close-Leaves h hs es hs' k = rw (same h, replay) k

end-Leaves :
    (h : Handle) (hs : List Handle) (es : List Event) (hs' : List Handle)
    → Leaves es hs hs'
    → Leaves (stopped h ∷ deleted h ∷ closed h ∷ es) (h ∷ hs) hs'
unfolding replay
end-Leaves h hs es hs' k = rw (same h, replay) k

-- a service that is open, and otherwise what was open before
abbrev ServiceLeft : {S : Type 0} → List Handle → Ran S (Option ℕ) → Type 0
ServiceLeft hs (none, es, s) = Leaves es hs hs
ServiceLeft hs (some svc, es, s) = Leaves es hs (service svc ∷ hs)

after-ServiceLeft :
    {S : Type 0} (hs : List Handle) (es : List Event) (r : Ran S (Option ℕ))
    → Leaves es hs hs
    → ServiceLeft hs r
    → ServiceLeft hs (after es r)
after-ServiceLeft hs es (none, es', s) h k = Leaves-append es es' hs hs hs h k
after-ServiceLeft hs es (some svc, es', s) h k = Leaves-append es es' hs hs (service svc ∷ hs) h k

abbrev one : (ℕ → Handle) → Option ℕ → List Handle
one kind none = []
one kind (some h) = kind h ∷ []

-- the handles of a context that are not null, or nothing
abbrev pub held : Ctx → List Handle
held c = one device c.driver_handle ++ (one service c.svc_handle ++ one scm c.scm_handle)

abbrev pub ContextLeft : {S : Type 0} → List Handle → Ran S (Option Ctx) → Type 0
ContextLeft hs (none, es, s) = Leaves es hs []
ContextLeft hs (some c, es, s) = Leaves es hs (held c)

after-ContextLeft :
    {S : Type 0} (hs hs' : List Handle) (es : List Event) (r : Ran S (Option Ctx))
    → Leaves es hs hs'
    → ContextLeft hs' r
    → ContextLeft hs (after es r)
after-ContextLeft hs hs' es (none, es', s) h k = Leaves-append es es' hs hs' [] h k
after-ContextLeft hs hs' es (some c, es', s) h k = Leaves-append es es' hs hs' (held c) h k

module _ {S : Type 0} (os : Os S) where
  started-ServiceLeft :
      (hs : List Handle) (svc : ℕ) (a : Started × S)
      → ServiceLeft hs (after (opened (service svc) ∷ []) (on_started os svc a))
  unfolding on_started replay
  started-ServiceLeft hs svc (started, s) = refl
  started-ServiceLeft hs svc (already_running, s) = refl
  started-ServiceLeft hs svc (start_failed, s) = close-Leaves (service svc) hs [] hs refl

  start-ServiceLeft : (hs : List Handle) (svc : ℕ) (s : S) → ServiceLeft hs (start os svc s)
  unfolding start
  start-ServiceLeft hs svc s = started-ServiceLeft hs svc (os.start_service svc s)

  opened-ServiceLeft : (hs : List Handle) (a : Option ℕ × S) → ServiceLeft hs (start_opened os a)
  unfolding start_opened replay
  opened-ServiceLeft hs (none, s) = refl
  opened-ServiceLeft hs (some svc, s) = start-ServiceLeft hs svc s

  stop_stale-Leaves : (hs : List Handle) (a : Option ℕ × S) → Leaves (stop_stale os a).1 hs hs
  unfolding stop_stale replay
  stop_stale-Leaves hs (none, s) = refl
  stop_stale-Leaves hs (some stale, s) = stale-Leaves (service stale) hs

  created-ServiceLeft :
      (hs : List Handle) (manager : ℕ) (a : Created × S) (again : S → Ran S (Option ℕ))
      → ((s : S) → ServiceLeft hs (again s))
      → ServiceLeft hs (on_created os manager a again)
  unfolding on_created replay
  created-ServiceLeft hs manager (created svc, s) again h = start-ServiceLeft hs svc s
  created-ServiceLeft hs manager (not_created service_exists, s) again h = opened-ServiceLeft hs _
  created-ServiceLeft hs manager (not_created marked_for_delete, s) again h =
      after-ServiceLeft hs _ (again _) (stop_stale-Leaves hs (os.open_service manager s)) (h _)
  created-ServiceLeft hs manager (not_created create_failed, s) again h = refl

  install-ServiceLeft :
      (hs : List Handle) (n manager : ℕ) (path : Bytes) (s : S)
      → ServiceLeft hs (install os n manager path s)
  unfolding install replay
  install-ServiceLeft hs zero manager path s = refl
  install-ServiceLeft hs (suc n) manager path s =
      created-ServiceLeft hs manager _ _ (install-ServiceLeft hs n manager path)

  tear_down-Leaves :
      (manager svc : ℕ) (s : S)
      → Leaves (tear_down os manager svc s).1 (service svc ∷ scm manager ∷ []) []
  unfolding tear_down replay
  tear_down-Leaves manager svc s =
      end-Leaves (service svc) (scm manager ∷ []) (closed (scm manager) ∷ []) []
        (close-Leaves (scm manager) [] [] [] refl)

  calloc-ContextLeft :
      (manager svc dev : ℕ) (a : Bool × S)
      → ContextLeft (device dev ∷ service svc ∷ scm manager ∷ []) (on_calloc os manager svc dev a)
  unfolding on_calloc replay tear_down
  calloc-ContextLeft manager svc dev (true, s) = refl
  calloc-ContextLeft manager svc dev (false, s) =
      close-Leaves (device dev) (service svc ∷ scm manager ∷ [])
        (tear_down os manager svc (os.close_handle dev s)).1 []
        (tear_down-Leaves manager svc (os.close_handle dev s))

  device-ContextLeft :
      (manager svc : ℕ) (a : Option ℕ × S)
      → ContextLeft (service svc ∷ scm manager ∷ []) (on_device os manager svc a)
  unfolding on_device tear_down
  device-ContextLeft manager svc (none, s) = tear_down-Leaves manager svc s
  device-ContextLeft manager svc (some dev, s) =
      after-ContextLeft (service svc ∷ scm manager ∷ [])
        (device dev ∷ service svc ∷ scm manager ∷ []) (opened (device dev) ∷ [])
        (on_calloc os manager svc dev (os.calloc s)) (open-Leaves _ _)
        (calloc-ContextLeft manager svc dev (os.calloc s))

  service-ContextLeft :
      (manager : ℕ) (r : Ran S (Option ℕ))
      → ServiceLeft (scm manager ∷ []) r
      → ContextLeft (scm manager ∷ []) (on_service os manager r)
  unfolding on_service
  service-ContextLeft manager (none, es, s) h =
      Leaves-append es (closed (scm manager) ∷ []) (scm manager ∷ []) (scm manager ∷ []) [] h
        (close-Leaves (scm manager) [] [] [] (nothing-Leaves []))
  service-ContextLeft manager (some svc, es, s) h =
      after-ContextLeft (scm manager ∷ []) (service svc ∷ scm manager ∷ []) es _ h
        (device-ContextLeft manager svc (os.create_file s))

  manager-ContextLeft : (path : Bytes) (a : Option ℕ × S) → ContextLeft [] (on_manager os path a)
  unfolding on_manager install_and_start_driver
  manager-ContextLeft path (none, s) = nothing-Leaves []
  manager-ContextLeft path (some manager, s) =
      after-ContextLeft [] (scm manager ∷ []) (opened (scm manager) ∷ []) _ (open-Leaves _ _)
        (service-ContextLeft manager _ (install-ServiceLeft (scm manager ∷ []) 3 manager path s))

  init-ContextLeft : (path : Option Bytes) (s : S) → ContextLeft [] (init os path s)
  unfolding init
  init-ContextLeft none s = nothing-Leaves []
  init-ContextLeft (some path) s = manager-ContextLeft path (os.open_manager s)

  close_driver-Leaves :
      (h : Option ℕ) (hs : List Handle) (s : S)
      → Leaves (close_driver os h s).1 (one device h ++ hs) hs
  unfolding close_driver replay
  close_driver-Leaves none hs s = refl
  close_driver-Leaves (some dev) hs s = close-Leaves (device dev) hs [] hs refl

  end_service-Leaves :
      (h : Option ℕ) (hs : List Handle) (s : S)
      → Leaves (end_service os h s).1 (one service h ++ hs) hs
  unfolding end_service replay
  end_service-Leaves none hs s = refl
  end_service-Leaves (some svc) hs s = end-Leaves (service svc) hs [] hs refl

  close_manager-Leaves : (h : Option ℕ) (s : S) → Leaves (close_manager os h s).1 (one scm h) []
  unfolding close_manager replay
  close_manager-Leaves none s = refl
  close_manager-Leaves (some manager) s = close-Leaves (scm manager) [] [] [] refl

  shutdown-Leaves : (c : Ctx) (s : S) → Leaves (shutdown os (some c) s).1 (held c) []
  unfolding shutdown
  shutdown-Leaves c s =
      let (a, es, s1) = close_driver os c.driver_handle s in
      let (b, es', s2) = end_service os c.svc_handle s1 in
      Leaves-append (es ++ es') (close_manager os c.scm_handle s2).1 (held c) (one scm c.scm_handle)
        []
        (Leaves-append es es' (held c) (one service c.svc_handle ++ one scm c.scm_handle)
          (one scm c.scm_handle)
          (close_driver-Leaves c.driver_handle (one service c.svc_handle ++ one scm c.scm_handle) s)
          (end_service-Leaves c.svc_handle (one scm c.scm_handle) s1))
        (close_manager-Leaves c.scm_handle s2)

  closed_again :
      (r : Ran S (Option Ctx))
      → ContextLeft [] r
      → let (c, es, s) = r in Leaves (es ++ (shutdown os c s).1) [] []
  unfolding shutdown
  closed_again (none, es, s) h = Leaves-append es [] [] [] [] h (nothing-Leaves [])
  closed_again (some c, es, s) h = Leaves-append es _ [] (held c) [] h (shutdown-Leaves c s)

  -- However the calls of the system answer, starting and then shutting down closes every handle of the
  -- service manager, of services and of the device that was opened, the last one first, also when the start fails
  -- on the way; a service is stopped or deleted only by a handle that is open, and the handles that are open behind the start are
  -- those of the context.
  pub init-shutdown :
      (path : Option Bytes) (s : S)
      → let (c, es, s') = init os path s in
        Leaves (es ++ (shutdown os c s').1) [] [] × ContextLeft [] (c, es, s')
  init-shutdown path s =
      (closed_again (init os path s) (init-ContextLeft path s), init-ContextLeft path s)
