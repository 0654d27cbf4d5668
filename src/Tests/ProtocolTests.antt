-- ===== src/Tests/ProtocolTests.antt =====
-- The theorems on the client at concrete inputs.
use kha_app.Prelude.{
  ◌≡◌, ◌≢◌, same_text, ◌⊎◌, refl, true, false, Option, none, some, List, [], ◌∷◌, ◌++◌, arith, Text,
  codes, is_empty, if◌then◌else◌,
}
use kha_app.Prelude.Result.{Result, ok, err, ◌>>=◌}
use kha_app.Storage.Message.{to_row}
use kha_app.Storage.Table.{write_all, find, get_by_id}
use kha_app.Protocol.Event.{message}
use kha_app.Protocol.Calls.{DownloadMedia, download_stored_media}
use kha_app.Protocol.Calls.Downloads.{asked_for, download-arrived}
use kha_app.Protocol.Reconnect.Ends.{meanwhile, run-ends}
use kha_app.Protocol.Content.{extract_message_text, or_no_content, build_stored_message}
use kha_app.Protocol.Content.Built.{has_part, caption, IsKind, build_stored_message_lem}
use kha_app.Protocol.Reconnect.{
  Reconnect, idle, ctx_done, timer, wake, starts, stops, wakes, Happening, run, step,
  start_reconnect_loop, stop_reconnect, cancel, find_loop, set_loop, round, next_delay,
}
use kha_app.Protocol.Reconnect.Invariant.{Inv, OnlyCurrent, run-Inv, idle-Inv}
use kha_app.Protocol.Reconnect.Stale.{stale_exit}
use kha_app.Protocol.Reconnect.Attempt.{
  Attempts, Action, begins, fires, asks, disconnects, connects, leaves, dialing, phase_of,
  run_actions, run_actions-Inv, online-disconnects,
}
use kha_app.Protocol.Client.{handle, handle_all}
use kha_app.Protocol.Client.Persistence.Asked.{all_asked, table-handle_all}
use kha_app.Protocol.Preview.{Node, node, childless, child, preview_in}
use kha_app.Protocol.Preview.Preorder.{
  preorder, or_else, first_filled, meta_content, title_text, image_of, preview_in_lem,
}
use kha_app.Tests.Data.{
  extended_event, answers, picture_media, alice, three_rows, contacts, picture_event, some_events,
  new_client,
}

-- Two losses of the connection, with a return in between that cancels the first loop.
abbrev lost_twice : List Happening
lost_twice =
    starts true ∷ wakes 0 (timer false (some (codes "no route"))) ∷ stops ∷ starts true ∷ []

-- A lost connection, and the loop's timer, after which it finds the client without a connection.
abbrev attempt : List Action
attempt = begins true ∷ fires 0 ∷ asks 0 ∷ []

abbrev no_attempts : Attempts
no_attempts = record { reconnect = idle; phases = []; online = false }

run_actions-Inv_example : Inv (run_actions no_attempts attempt).reconnect
run_actions-Inv_example = run_actions-Inv no_attempts attempt idle-Inv

about_to_connect : phase_of 0 (run_actions no_attempts attempt).phases ≡ dialing
unfolding run_actions start_reconnect_loop find_loop
about_to_connect = refl

online-disconnects_example :
    let y =
      run_actions
        (run_actions no_attempts attempt)
        (disconnects ∷ connects 0 none ∷ leaves 0 ∷ []) in
    (y.online ≡ true) × (y.reconnect.cancel_retry ≡ none)
online-disconnects_example = online-disconnects (run_actions no_attempts attempt) 0 about_to_connect

abbrev after_two_losses : Reconnect
after_two_losses = run idle lost_twice

stale_exit_example :
    ((wake 0 ctx_done after_two_losses).cancel_retry ≡ none)
    × OnlyCurrent none (wake 0 ctx_done after_two_losses).loops
unfolding run step start_reconnect_loop stop_reconnect wake cancel find_loop set_loop round
    next_delay
stale_exit_example =
    stale_exit after_two_losses 0 1 (record { ctx = 0; delay = 4; cancelled = true })
      (run-Inv idle lost_twice idle-Inv) refl refl refl

table-handle_all_example :
    (handle_all new_client ((answers, message extended_event) ∷ some_events)).table
    ≡ write_all three_rows (all_asked ((answers, message extended_event) ∷ some_events))
table-handle_all_example =
    table-handle_all new_client ((answers, message extended_event) ∷ some_events)

build_stored_message_lem_example :
    let msg = build_stored_message contacts picture_event in
    let content = or_no_content picture_event.message in
    (msg.has_media ≡ has_part content)
    × (msg.text ≡ (
        if is_empty (extract_message_text picture_event.message)
        then (if has_part content then caption content else [])
        else extract_message_text picture_event.message))
    × ((msg.has_media ≡ false) ⊎ IsKind msg.media_type)
build_stored_message_lem_example = build_stored_message_lem contacts picture_event

alice-ne-nil : alice ≢ []
alice-ne-nil h = ground arith

abbrev no_extensions : Text → List Text
no_extensions mime_type = []

-- `<html><title>Kha</title><meta property="OG:Title" content=" KhaApp "></html>`
abbrev page_node : Node
page_node = node true (codes "html") [] (
    child (node true (codes "title") [] (child (node false (codes "Kha") [] childless) childless)) (
      child
        (node true (codes "meta")
          ((codes "property", codes "OG:Title") ∷ (codes "content", codes " KhaApp ") ∷ [])
          childless)
        childless))

abbrev resolved : Text → Result Text
resolved value = ok (codes "https://kha.app/" ++ value)

preview_in_lem_example :
    let items = preorder page_node in
    preview_in resolved (ok page_node) ≡ record {
      title =
          or_else
            (first_filled (meta_content (codes "og:title")) items)
            (first_filled title_text items);
      description = first_filled (meta_content (codes "og:description")) items;
      image_url = first_filled (image_of resolved) items;
    }
preview_in_lem_example = preview_in_lem resolved page_node

-- The second loss is that of the connection which the loop has just made.
abbrev lost_again : List (Option Text)
lost_again = some (codes "timeout") ∷ none ∷ []

run-ends_example :
    run idle (starts true ∷ (meanwhile 0 lost_again ++ wakes 0 (timer false none) ∷ []))
    ≡ record idle { next_ctx = 1 }
run-ends_example = run-ends idle lost_again (timer false none) tt refl refl

-- A server that has the picture's path only.
abbrev media_server : DownloadMedia
media_server path enc hash key kind mms =
    if same_text path (codes "/v/t62") then ok (1 ∷ 2 ∷ []) else err (codes "not found")

download-arrived_example :
    (get_by_id none (codes "B1") (handle answers (message picture_event) new_client).table
      >>= download_stored_media media_server)
    ≡ asked_for media_server (codes "image") picture_media
unfolding find same_text to_row
download-arrived_example =
    download-arrived media_server answers picture_event new_client (codes "image") picture_media
      refl refl refl
