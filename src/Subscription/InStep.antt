-- ===== src/Subscription/InStep.antt =====
-- The local file and the one on the server.
use nopfs.Prelude.{
  ℕ, ◌≡◌, refl, sym, ap, ◌∙◌, List, [], ◌∷◌, ◌++◌, append_assoc, Option, none, some, Bytes, nat_eqb,
  nat_eqb_iff, length, Error, Result, ok, err, Bool-cases, inl, inr,
}
use nopfs.Text.Affixes.{Extends}
use nopfs.Denylist.HeaderEnd.{skip, skip-append}
use nopfs.Subscription.{
  Response, Sync, range_header, content, is_refused, append_body, with_stat, with_open,
  download_and_append, Ready, stop, timer, subscribe,
}

-- What the server's status 206 means: the body begins the remote file's bytes from the offset on.
abbrev pub Serves : Bytes → Sync → Type 0
Serves remote sync =
    (offset : ℕ) (resp : Response)
    → sync.request (range_header offset) ≡ ok resp
    → resp.status_code ≡ 206
    → Extends (skip offset remote) resp.body

Extends-append :
    (remote file body : Bytes)
    → Extends remote file
    → Extends (skip (length file) remote) body
    → Extends remote (file ++ body)
Extends-append remote file body (t, e) (r, e') =
    let behind : t ≡ body ++ r =
      sym (skip-append file t (length file) refl) ∙ ap (skip (length file)) (sym e) ∙ e' in
    (r, e ∙ ap (λ u. file ++ u) behind ∙ sym (append_assoc file body r))

append_body-Extends :
    (remote : Bytes) (sync : Sync) (file : Bytes) (r : Result Response)
    → Serves remote sync
    → sync.request (range_header (length file)) ≡ r
    → Extends remote file
    → Extends remote (content (append_body file r).0)
append_body-Extends remote sync file (err e) serves asked x = x
append_body-Extends remote sync file (ok resp) serves asked x =
    elim (Bool-cases (nat_eqb resp.status_code 206)) [
      | inl partial ↦ rw partial (
          Extends-append remote file resp.body x
            (serves (length file) resp asked ((nat_eqb_iff _ _).0 partial)))
      | inr other ↦ elim (Bool-cases (is_refused resp.status_code)) [
        | inl refused ↦ rw (other, refused) x
        | inr fine ↦ rw (other, fine) x
      ]
    ]

with_stat-Extends :
    (remote : Bytes) (sync : Sync) (file : Bytes) (o : Option Error)
    → Serves remote sync
    → Extends remote file
    → Extends remote (content (with_stat sync file o).0)
with_stat-Extends remote sync file (some e) serves x = x
with_stat-Extends remote sync file none serves x =
    append_body-Extends remote sync file (sync.request (range_header (length file))) serves refl x

pub with_open-Extends :
    (remote : Bytes) (sync : Sync) (file : Option Bytes) (o : Option Error)
    → Serves remote sync
    → Extends remote (content file)
    → Extends remote (content (with_open sync file o).0)
with_open-Extends remote sync file (some e) serves x = x
with_open-Extends remote sync file none serves x =
    with_stat-Extends remote sync (content file) sync.stat_error serves x

-- The remote file is only appended to, from the first one on to the last one.
abbrev pub Grows : Bytes → Bytes → List Ready → Type 0
Grows remote last [] = Extends last remote
Grows remote last (stop ∷ ready) = Extends last remote
Grows remote last (timer sync ∷ ready) =
    (remote' : Bytes) × Extends remote' remote × Serves remote' sync × Grows remote' last ready

pub Extends-trans : (a b c : Bytes) → Extends a b → Extends b c → Extends a c
Extends-trans a b c (r, e) (t, e') = (t ++ r, e ∙ ap (λ u. u ++ r) e' ∙ append_assoc c t r)

-- A local file that begins the remote one does so after every run of the subscription, whatever
-- errors its syncs meet, if the remote file is only appended to and each partial response begins
-- what the remote file has from the requested offset on.
pub subscribe-Extends :
    (remote last : Bytes) (file : Option Bytes) (ready : List Ready)
    → Extends remote (content file)
    → Grows remote last ready
    → Extends last (content (subscribe file ready).0)
unfolding subscribe
subscribe-Extends remote last file [] x grown = Extends-trans last remote (content file) grown x
subscribe-Extends remote last file (stop ∷ ready) x grown =
    Extends-trans last remote (content file) grown x
subscribe-Extends remote last file (timer sync ∷ ready) x (remote', more, serves, grown) =
    subscribe-Extends remote' last (download_and_append sync file).0 ready
      (unfold download_and_append in
        with_open-Extends remote' sync file sync.open_error serves
          (Extends-trans remote' remote (content file) more x))
      grown

-- A sync that opens the file, whose request is answered with status 206 and all that the remote file
-- has from the offset on, and whose copy meets no error, makes the local file the remote one, if it
-- began it.
pub download_and_append-remote :
    (remote : Bytes) (sync : Sync) (file : Option Bytes)
    → Extends remote (content file)
    → sync.open_error ≡ none
    → sync.stat_error ≡ none
    → sync.request (range_header (length (content file)))
      ≡ ok (record {
        status_code = 206;
        body = skip (length (content file)) remote;
        body_error = none;
      })
    → download_and_append sync file ≡ (some remote, none)
unfolding download_and_append
download_and_append-remote remote sync file (t, e) opens stats answers =
    rw (opens, stats, answers)
      (ap (λ (u : Bytes). (some (content file ++ u), none))
          (ap (skip (length (content file))) e ∙ skip-append (content file) t _ refl)
        ∙ ap (λ (u : Bytes). (some u, none)) (sym e))
