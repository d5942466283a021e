-- ===== src/Store/Rows/Operations.antt =====
-- The session and run operations of eventide/store.py as sequences of row changes.
use eventide.Prelude.{
  String, ◌≡◌, refl, sym, ap, List, [], ◌∷◌, Option, none, some, Bool, true, false, not, ◌&&◌, ◌==◌,
  string_eq, arith, Bool-cases, Option-cases, inl, inr,
}
use eventide.Runtime.{ok, >>=-eq-ok, ok-injective, raise_if, or_raise}
use eventide.Facts.{Fact}
use eventide.Store.State.{Store, Session, get_session, contains}
use eventide.Store.Log.{append_fact}
use eventide.Store.Sessions.{
  create_session, update_session, delete_session, commit_session_metadata, has_history, reuse,
  choose_workspace, insert_session, register_default, change_metadata, clean_title, is_some,
}
use eventide.Store.Runs.{create_run, create_run_locked, admit_run, append_admissions, Admission}
use eventide.Store.Rows.{
  Changes, unchanged, session_put, session_removed, run_created, workspace_put, Changes-trans,
  Changes-one, Changes-eq, append_fact-Changes, receipt-Changes,
}

reuse-Changes :
    (s : Store) (row : Session) (w d : Option String) (m : Bool) (s' : Store)
    → reuse s row w d m ≡ ok s'
    → Changes s s'
unfolding reuse
reuse-Changes s row w d m s' h = Changes-eq (ground arith)

register_default-Changes : (s : Store) → Changes s (register_default s)
unfolding register_default
register_default-Changes s = elim (Bool-cases (contains s.default_workspace s.workspaces)) [
  | inl there ↦ rw there unchanged
  | inr new ↦ rw new (Changes-one (workspace_put s.default_workspace refl))
]

choose_workspace-Changes :
    (s : Store) (w : Option String) (m : Bool) (r : Store × String)
    → choose_workspace s w m ≡ ok r
    → Changes s r.0
unfolding choose_workspace
choose_workspace-Changes s none m r h =
    rw (ap (λ (q : Store × String). q.0) (sym (chosen s m r h))) (register_default-Changes s)
  where
    chosen :
        (s : Store) (m : Bool) (r : Store × String)
        → choose_workspace s none m ≡ ok r
        → (register_default s, s.default_workspace) ≡ r
    chosen s true r h = cc
    chosen s false r h = ok-injective h
choose_workspace-Changes s (some w) m r h = Changes-eq (ground arith)

pub create_session-Changes :
    (s : Store) (sid : String) (w d : Option String) (m : Option (String × String)) (s' : Store)
    → create_session s sid w d m ≡ ok s'
    → Changes s s'
unfolding create_session insert_session
create_session-Changes s sid w d m s' h = elim (Option-cases (get_session s sid)) [
  | inr (row, there) ↦ reuse-Changes s row w d (is_some m) s' (rw (there, create_session) at h)
  | inl new ↦
      let h₀ = rw (new, create_session) at h in
      let (r, one, rest) = >>=-eq-ok (choose_workspace s w (is_some m)) _ h₀ in
      Changes-trans (choose_workspace-Changes s w (is_some m) r one) (
        Changes-trans (Changes-one (session_put sid _ refl))
          (receipt-Changes (insert_session r.0 sid r.1 d) sid m s' rest))
]

-- A guard that let pass.
raise_if-ok : (b : Bool) (m : String) (u : Unit {0}) → raise_if b m ≡ ok u → b ≡ false
raise_if-ok true m u h = cc
raise_if-ok false m u h = refl

pub delete_session-Changes :
    (s : Store) (sid : String) (s' : Store) → delete_session s sid ≡ ok s' → Changes s s'
unfolding delete_session
delete_session-Changes s sid s' h =
    let (_, _, h₁) = >>=-eq-ok (or_raise (get_session s sid) "Session not found") _ h in
    let (u, kept, h₂) = >>=-eq-ok (raise_if (has_history s sid) _) _ h₁ in
    Changes-one (session_removed sid (raise_if-ok _ _ u kept) (sym (ok-injective h₂)))

pub update_session-Changes :
    (s : Store) (sid : String) (title : Option String) (archived : Option Bool) (s' : Store)
    → update_session s sid title archived ≡ ok s'
    → Changes s s'
unfolding update_session
update_session-Changes s sid title archived s' h =
    let (row, _, h₁) = >>=-eq-ok (or_raise (get_session s sid) "Session not found") _ h in
    let (cleaned, _, h₂) = >>=-eq-ok (clean_title title row.title) _ h₁ in
    let (_, _, h₃) = >>=-eq-ok (raise_if (not (is_some title) && not (is_some archived)) _) _ h₂ in
    Changes-one (session_put sid _ (sym (ok-injective h₃)))

change_metadata-Changes :
    (s : Store) (sid : String) (row : Session) (deleted : Bool) (title : Option String)
    (archived : Option Bool) (r : Store × Fact)
    → change_metadata s sid row deleted title archived ≡ ok r
    → Changes s r.0
unfolding change_metadata
change_metadata-Changes s sid row true title archived r h =
    let (u, kept, h₁) = >>=-eq-ok (raise_if (has_history s sid) _) _ h in
    Changes-one (
      session_removed sid (raise_if-ok _ _ u kept)
        (ap (λ (q : Store × Fact). q.0) (sym (ok-injective h₁))))
change_metadata-Changes s sid row false title archived r h =
    let (_, _, h₁) = >>=-eq-ok (raise_if (not (is_some title) && not (is_some archived)) _) _ h in
    let (cleaned, _, h₂) = >>=-eq-ok (clean_title title row.title) _ h₁ in
    Changes-one (session_put sid _ (ap (λ (q : Store × Fact). q.0) (sym (ok-injective h₂))))

pub commit_session_metadata-Changes :
    (digest : String → Session → String) (s : Store) (owner sid hash identity : String)
    (deleted : Bool) (title : Option String) (archived : Option Bool) (s' : Store)
    → commit_session_metadata digest s owner sid hash identity deleted title archived ≡ ok s'
    → Changes s s'
unfolding commit_session_metadata
commit_session_metadata-Changes digest s owner sid hash identity deleted title archived s' h =
    let (row, _, h₁) = >>=-eq-ok (or_raise (get_session s sid) "Session not found") _ h in
    let (_, _, h₂) = >>=-eq-ok (raise_if (not (digest sid row == hash)) _) _ h₁ in
    let (r, put, h₃) = >>=-eq-ok (change_metadata s sid row deleted title archived) _ h₂ in
    let (a, one, h₄) = >>=-eq-ok (append_fact r.0 owner r.1 _) _ h₃ in
    let (b, two, h₅) = >>=-eq-ok (append_fact a.1 owner _ _) _ h₄ in
    rw (← ok-injective h₅) (
      Changes-trans (change_metadata-Changes s sid row deleted title archived r put) (
        Changes-trans (append_fact-Changes r.0 owner _ _ a one)
          (append_fact-Changes a.1 owner _ _ b two)))

pub create_run-Changes :
    (s : Store) (rid sid : String) (continued : Option String) (s' : Store)
    → create_run s rid sid continued ≡ ok s'
    → Changes s s'
unfolding create_run
create_run-Changes s rid sid continued s' h =
    let (s₁, one, rest) = >>=-eq-ok (create_session s sid none none none) _ h in
    Changes-trans (create_session-Changes s sid none none none s₁ one)
      (Changes-one (run_created rid sid continued rest))

append_admissions-Changes :
    (s : Store) (sid rid : String) (facts : List Admission) (s' : Store)
    → append_admissions s sid rid facts ≡ ok s'
    → Changes s s'
unfolding append_admissions
append_admissions-Changes s sid rid [] s' h = Changes-eq (sym (ok-injective h))
append_admissions-Changes s sid rid (a ∷ facts) s' h =
    let (r, one, rest) = >>=-eq-ok (append_fact s sid a.fact _) _ h in
    Changes-trans (append_fact-Changes s sid a.fact _ r one)
      (append_admissions-Changes r.1 sid rid facts s' rest)

pub admit_run-Changes :
    (s : Store) (rid sid : String) (facts : List Admission) (continued : Option String) (s' : Store)
    → admit_run s rid sid facts continued ≡ ok s'
    → Changes s s'
unfolding admit_run
admit_run-Changes s rid sid facts continued s' h =
    let (_, _, h₁) = >>=-eq-ok (or_raise (get_session s sid) "Session not found") _ h in
    let (s₁, one, rest) = >>=-eq-ok (create_run_locked s rid sid continued) _ h₁ in
    Changes-trans (Changes-one (run_created rid sid continued one))
      (append_admissions-Changes s₁ sid rid facts s' rest)
