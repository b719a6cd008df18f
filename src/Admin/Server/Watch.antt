-- ===== src/Admin/Server/Watch.antt =====
-- crates/admin/src/admin/server.rs: the stream of events for a client that watches the registry.
use ghaf_givc.Prelude.{
  ◌≡◌, refl, sym, ap, ◌∙◌, ◌⊎◌, inl, inr, Bool, true, false, Option, none, some, List, [], ◌∷◌,
  ◌++◌, map, if◌then◌else◌, Bool-cases, ◌==◌, list_eq, option_eq, nat_eq, length, drop, drop-append,
}
use mathlib.Core.List.{append_assoc, append-nil}
use ghaf_givc.Text.{Text}
use ghaf_givc.Admin.Query.{
  QueryResult, Event, unit_registered, unit_status_changed, unit_shutdown, EnumTexts, WatchItem,
  into_initial, event_into,
}
use ghaf_givc.Admin.Entry.{entry_into}
use ghaf_givc.Admin.Registry.{Registry, subscribe, values, Table, get}
use ghaf_givc.Admin.Registry.Table.{Named}
use ghaf_givc.Admin.Registry.Invariant.{Step, Reachable, then_step, Reachable-IsConsistent}
use ghaf_givc.Admin.Registry.Replay.{replay-view_of, Step-Sends, Sends, sends}
use ghaf_givc.Admin.Registry.Views.{
  View, apply_event, replay, view_of, summary, replay-agree, replay-append,
}

-- The events that a subscriber has received when the registry is in the last of the states; the
-- channel keeps them in order, and a subscriber that does not fall behind misses none.
unfoldable pub received : Registry → Registry → Registry → List Event
received at_receiver at_contents last = drop (subscribe at_receiver at_contents).1 last.sent

-- The items of the stream: the contents, and then each event.
unfoldable pub watch : EnumTexts → Registry → Registry → Registry → List WatchItem
watch texts at_receiver at_contents last =
    into_initial texts (subscribe at_receiver at_contents).0
    ∷ map (event_into texts) (received at_receiver at_contents last)

-- What a client knows from the list of the contents.
unfoldable pub listed : List QueryResult → View
listed [] name = none
listed (q ∷ qs) name = if q.name == name then some q else listed qs name

-- Later states, by any number of steps.
pub data Later (reg : Registry) : Registry → Type 0 where
  now : Later reg reg
  advance : {mid last : Registry} → Later reg mid → Step mid last → Later reg last

Later-Reachable : (reg last : Registry) → Reachable reg → Later reg last → Reachable last
Later-Reachable reg _ r now = r
Later-Reachable reg last r (advance {mid} l s) = then_step (Later-Reachable reg mid r l) s

SentSince : Registry → Registry → Type 0
SentSince reg last = (es : List Event) × (last.sent ≡ reg.sent ++ es)

SentSince-advance :
    (reg mid last : Registry)
    → Reachable mid
    → Step mid last
    → SentSince reg mid
    → SentSince reg last
unfolding SentSince
SentSince-advance reg mid last r s (es, e) = more_sent (Step-Sends (Reachable-IsConsistent mid r) s)
  where
    more_sent : Sends mid last → (fs : List Event) × (last.sent ≡ reg.sent ++ fs)
    more_sent (sends fs sent views) =
        (es ++ fs, sent ∙ (ap (λ l. l ++ fs) e ∙ append_assoc reg.sent es fs))

Later-SentSince : (reg last : Registry) → Reachable reg → Later reg last → SentSince reg last
unfolding SentSince
Later-SentSince reg _ r now = ([], sym (append-nil reg.sent))
Later-SentSince reg last r (advance {mid} l s) =
    SentSince-advance reg mid last (Later-Reachable reg mid r l) s (Later-SentSince reg mid r l)

listed-values :
    (t : Table) (name : Text)
    → Named t
    → listed (map entry_into (values t)) name ≡ summary (get name t)
unfolding listed get entry_into
listed-values [] name h = refl
listed-values (row ∷ t) name h = elim (Bool-cases (row.0 == name)) [
  | inl e ↦ rw (h.0, e) refl
  | inr e ↦ rw (h.0, e) (listed-values t name h.1)
]

-- What the events tell of a name, whatever was known before; or they do not tell anything of it.
Tells : List Event → Text → Type 0
Tells es name =
    ((o : Option QueryResult) × ((v : View) → replay es v name ≡ o))
    ⊎ ((v : View) → replay es v name ≡ v name)

replay-Tells : (es : List Event) (name : Text) → Tells es name
unfolding replay Tells
replay-Tells [] name = inr (λ v. refl)
replay-Tells (event ∷ es) name = later event (replay-Tells es name)
  where
    told :
        (o : Option QueryResult) (hit : Bool) (change : Event)
        → ((v : View) → apply_event change v name ≡ (if hit then o else v name))
        → ((v : View) → replay es v name ≡ v name)
        → ((o : Option QueryResult) × ((v : View) → replay es (apply_event change v) name ≡ o))
          ⊎ ((v : View) → replay es (apply_event change v) name ≡ v name)
    told o true change applied same = inl (o, λ v. same (apply_event change v) ∙ applied v)
    told o false change applied same = inr (λ v. same (apply_event change v) ∙ applied v)

    later :
        (change : Event)
        → Tells es name
        → ((o : Option QueryResult) × ((v : View) → replay es (apply_event change v) name ≡ o))
          ⊎ ((v : View) → replay es (apply_event change v) name ≡ v name)
    later change (inl (o, all)) = inl (o, λ v. all (apply_event change v))
    later (unit_registered q) (inr same) =
        told (some q) (q.name == name) (unit_registered q) (λ v. refl) same
    later (unit_status_changed q) (inr same) =
        told (some q) (q.name == name) (unit_status_changed q) (λ v. refl) same
    later (unit_shutdown q) (inr same) =
        told none (q.name == name) (unit_shutdown q) (λ v. refl) same

-- Replaying events on a view that they lead to from another one changes nothing.
replay-again :
    (es : List Event) (v w : View) (name : Text)
    → w name ≡ replay es v name
    → replay es w name ≡ w name
unfolding Tells
replay-again es v w name h = elim (replay-Tells es name) [
  | inl (o, all) ↦ all w ∙ (sym (all v) ∙ sym h)
  | inr same ↦ same w
]

-- A client that takes the contents it is sent first, and applies the events it is sent after them
-- in their order, knows of each name exactly what the registry holds under it, in every later state
-- of a registry that started empty; also if the registry changes between the creation of the
-- client's receiver and the reading of the contents, so that events of changes which are in the
-- contents already are sent again.
pub watch-view_of :
    (at_receiver at_contents last : Registry) (name : Text)
    → Reachable at_receiver
    → Later at_receiver at_contents
    → Later at_contents last
    → replay
        (received at_receiver at_contents last)
        (listed (subscribe at_receiver at_contents).0)
        name
      ≡ view_of last name
unfolding received subscribe SentSince
watch-view_of at_receiver at_contents last name r l k =
    conclude (Later-SentSince at_receiver at_contents r l)
      (Later-SentSince at_contents last (Later-Reachable at_receiver at_contents r l) k)
  where
    there : Reachable at_contents
    there = Later-Reachable at_receiver at_contents r l

    known : View
    known = listed (map entry_into (values at_contents.table))

    before : View
    before = replay at_receiver.sent (λ n. none)

    known_is : known name ≡ replay at_contents.sent (λ n. none) name
    known_is =
        listed-values at_contents.table name (Reachable-IsConsistent at_contents there).named
        ∙ sym (replay-view_of at_contents name there)

    conclude :
        SentSince at_receiver at_contents
        → SentSince at_contents last
        → replay (drop (length at_receiver.sent) last.sent) known name ≡ view_of last name
    conclude (es, e) (fs, f) =
        let all_sent : last.sent ≡ at_receiver.sent ++ (es ++ fs) =
          f ∙ (ap (λ q. q ++ fs) e ∙ append_assoc at_receiver.sent es fs) in
        let led : known name ≡ replay es before name =
          known_is
          ∙ (ap (λ q. replay q (λ n. none) name) e
              ∙ ap (λ v. v name) (replay-append at_receiver.sent es (λ n. none))) in
        ap (λ q. replay q known name)
          (ap (drop (length at_receiver.sent)) all_sent ∙ drop-append at_receiver.sent (es ++ fs))
        ∙ (ap (λ v. v name) (replay-append es fs known)
            ∙ (replay-agree fs (replay es known) (replay at_contents.sent (λ n. none)) name
                  (replay-again es before known name led ∙ known_is)
                ∙ (ap (λ v. v name) (sym (replay-append at_contents.sent fs (λ n. none)))
                    ∙ (ap (λ q. replay q (λ n. none) name) (sym f)
                        ∙ replay-view_of last name (Later-Reachable at_contents last there k)))))
