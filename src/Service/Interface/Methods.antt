-- ===== src/Service/Interface/Methods.antt =====
-- daemon/dbus/service.go: the Go signatures of the methods of `MessengerService`, against the
-- introspection data.
use kha_app.Prelude.{
  ◌≡◌, refl, Bool, true, false, Option, none, some, List, [], ◌∷◌, map, Text, codes, same_text,
  select, arith, if◌then◌else◌,
}
use kha_app.Service.Interface.{
  Arg, MethodInfo, introspected_methods, GoType, go_string, go_int32, go_variant, go_context,
  go_error, go_dbus_error, go_slice, go_map, GoMethod, Godbus, Documented, last_result,
}

abbrev go_method : Text → List GoType → List GoType → GoMethod
go_method name params results = record { name = name; params = params; results = results }

-- `map[string]godbus.Variant`.
abbrev pub variant_map : GoType
variant_map = go_map go_string go_variant

abbrev pub export_method : GoMethod
export_method = go_method (codes "Export") [] (go_error ∷ [])

abbrev pub run_event_loop_method : GoMethod
run_event_loop_method = go_method (codes "RunEventLoop") (go_context ∷ []) []

abbrev pub auto_connect_method : GoMethod
auto_connect_method = go_method (codes "AutoConnect") [] (go_error ∷ [])

abbrev pub shutdown_method : GoMethod
shutdown_method = go_method (codes "Shutdown") [] []

abbrev pub get_status_method : GoMethod
get_status_method = go_method (codes "GetStatus") [] (go_string ∷ go_dbus_error ∷ [])

abbrev pub request_login_method : GoMethod
request_login_method = go_method (codes "RequestLogin") [] (go_dbus_error ∷ [])

abbrev pub logout_method : GoMethod
logout_method = go_method (codes "Logout") [] (go_dbus_error ∷ [])

abbrev pub send_text_message_method : GoMethod
send_text_message_method =
    go_method (codes "SendTextMessage") (go_string ∷ go_string ∷ [])
      (go_string ∷ go_dbus_error ∷ [])

abbrev pub get_chats_method : GoMethod
get_chats_method = go_method (codes "GetChats") [] (go_slice variant_map ∷ go_dbus_error ∷ [])

abbrev pub get_messages_method : GoMethod
get_messages_method =
    go_method (codes "GetMessages") (go_string ∷ go_int32 ∷ go_int32 ∷ [])
      (go_slice variant_map ∷ go_dbus_error ∷ [])

abbrev pub get_group_info_method : GoMethod
get_group_info_method =
    go_method (codes "GetGroupInfo") (go_string ∷ []) (variant_map ∷ go_dbus_error ∷ [])

abbrev pub get_profile_picture_method : GoMethod
get_profile_picture_method =
    go_method (codes "GetProfilePicture") (go_string ∷ []) (go_string ∷ go_dbus_error ∷ [])

abbrev pub search_messages_method : GoMethod
search_messages_method =
    go_method (codes "SearchMessages") (go_string ∷ go_string ∷ [])
      (go_slice variant_map ∷ go_dbus_error ∷ [])

abbrev pub download_media_method : GoMethod
download_media_method =
    go_method (codes "DownloadMedia") (go_string ∷ go_string ∷ []) (go_string ∷ go_dbus_error ∷ [])

abbrev pub mark_as_read_method : GoMethod
mark_as_read_method = go_method (codes "MarkAsRead") (go_string ∷ []) (go_dbus_error ∷ [])

abbrev pub fetch_link_preview_method : GoMethod
fetch_link_preview_method =
    go_method (codes "FetchLinkPreview") (go_string ∷ []) (variant_map ∷ go_dbus_error ∷ [])

-- The methods with a capital name, in the order of the source.
abbrev pub service_methods : List GoMethod
service_methods =
    export_method ∷ run_event_loop_method ∷ auto_connect_method ∷ shutdown_method
    ∷ get_status_method ∷ request_login_method ∷ logout_method ∷ send_text_message_method
    ∷ get_chats_method ∷ get_messages_method ∷ get_group_info_method ∷ get_profile_picture_method
    ∷ search_messages_method ∷ download_media_method ∷ mark_as_read_method
    ∷ fetch_link_preview_method ∷ []

-- A method as a caller on the bus sees it: the types that go in and those that come out.
pub record Offer : Type 0 where
  pub name : Text
  pub ins : List Text
  pub outs : List Text

abbrev types_in : Text → List Arg → List Text
types_in direction args = map (λ a. a.type) (select (λ a. same_text a.direction direction) args)

abbrev pub declared_offer : MethodInfo → Offer
declared_offer d = record {
  name = d.name;
  ins = types_in (codes "in") d.args;
  outs = types_in (codes "out") d.args;
}

abbrev without_last : List GoType → List GoType
without_last [] = []
without_last (t ∷ []) = []
without_last (t ∷ u ∷ ts) = t ∷ without_last (u ∷ ts)

-- The closing `*godbus.Error` becomes an error reply.
abbrev pub actual_offer : Godbus → GoMethod → Offer
actual_offer g m = record {
  name = m.name;
  ins = map g.signature_of m.params;
  outs = map g.signature_of (without_last m.results);
}

abbrev pub offer_named : Text → List Offer → Option Offer
offer_named name [] = none
offer_named name (o ∷ os) =
    let rest = offer_named name os in if same_text o.name name then some o else rest

abbrev ends_in_dbus_error : GoMethod → Bool
ends_in_dbus_error m = elim (last_result m.results) [ some go_dbus_error ↦ true | _ ↦ false ]

module _ (g : Godbus) (d : Documented g) where
  is_exported_lem : (m : GoMethod) → g.is_exported m ≡ ends_in_dbus_error m
  is_exported_lem m = ground (arith, d.exported_iff m)

  select-exported : (ms : List GoMethod) → select g.is_exported ms ≡ select ends_in_dbus_error ms
  unfolding select
  select-exported [] = refl
  select-exported (m ∷ ms) = rw (is_exported_lem m, select-exported ms) refl

  variant_map_lem : g.signature_of variant_map ≡ codes "a{sv}"
  variant_map_lem = rw (d.of_map, d.of_string, d.of_variant) refl

  actual_offers :
      map (actual_offer g) (select ends_in_dbus_error service_methods)
      ≡ map declared_offer introspected_methods
  unfolding select same_text
  actual_offers = rw (variant_map_lem, d.of_slice, variant_map_lem, d.of_string, d.of_int32) refl

  -- Under godbus's rules, for every name the method that is offered on the bus under it and the
  -- one that the introspection data declares under it are the same, with the same types in and
  -- out; a name that neither has is in neither. So `Export`, `RunEventLoop`, `AutoConnect` and
  -- `Shutdown` are not offered.
  pub offers_lem :
      (name : Text)
      → offer_named name (map (actual_offer g) (select g.is_exported service_methods))
        ≡ offer_named name (map declared_offer introspected_methods)
  offers_lem name = rw (select-exported service_methods, actual_offers) refl
