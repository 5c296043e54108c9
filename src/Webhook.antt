-- ===== src/Webhook.antt =====
-- server/webhook.rs: the conversion of raw objects between the versions of the resource. The HTTP
-- server around it is left out.
pub mod Lost
pub mod Admission
pub mod Admitted
pub mod Handlers
use Prim.Native.Char.{code}
use Prim.Native.String.{◌++◌}
use kulta.Prelude.{
  String, ◌&&◌, not, Option, none, some, List, [], ◌∷◌, unwrap_or, and_then, is_some, str_eq, ◌==◌,
  if◌then◌else◌, Exec, done, panic, ◌>>=◌,
}

-- `serde_json::Value`: a number, a Boolean and an array as text. The order of an object's members
-- means nothing.
mutual
  pub data Json : Type 0 where
    null : Json
    text : String → Json
    other : String → Json
    object : Members → Json

  pub data Members : Type 0 where
    nil : Members
    field : String → Json → Members → Members

unfoldable pub find : String → Members → Option Json
find key nil = none
find key (field k v m) = let rest = find key m in if str_eq k key then some v else rest

unfoldable pub put : String → Json → Members → Members
put key value nil = field key value nil
put key value (field k v m) =
    let rest = put key value m in if str_eq k key then field k value m else field k v rest

-- A key stands in an object once.
unfoldable pub remove : String → Members → Members
remove key nil = nil
remove key (field k v m) = let rest = remove key m in if str_eq k key then rest else field k v rest

-- `Value::get` and `as_str`.
abbrev pub get : String → Json → Option Json
get key (object m) = find key m
get key _ = none

abbrev pub as_str : Json → Option String
as_str (text s) = some s
as_str _ = none

-- `value[key] = …`: `null` becomes an object, and anything else that is none panics.
abbrev pub set : String → Json → Json → Exec Json
set key value null = done (object (field key value nil))
set key value (object m) = done (object (put key value m))
set key value _ = panic

abbrev after_slash : String → Option String
after_slash String.[] = none
after_slash (String.◌∷◌ c s) = elim (after_slash s) [
  | some r ↦ some r
  | none ↦ if code c == b'/' then some s else none
]

-- `split('/').next_back()`, which is always there.
unfoldable pub extract_version : String → String
extract_version api_version = unwrap_or (after_slash api_version) api_version

abbrev pub context_of : Option String → Option String → String
context_of (some namespace) (some name) = " (namespace: " ++ namespace ++ ", name: " ++ name ++ ")"
context_of none (some name) = " (name: " ++ name ++ ")"
context_of (some namespace) none = " (namespace: " ++ namespace ++ ")"
context_of none none = ""

unfoldable pub object_context : Json → String
object_context obj =
    let metadata = get "metadata" obj in
    context_of (and_then (and_then metadata (get "namespace")) as_str)
      (and_then (and_then metadata (get "name")) as_str)

-- `Result<Value, String>`.
pub data Conversion : Type 0 where
  converted : Json → Conversion
  refused : String → Conversion

abbrev pub default_if_missing : String → Json → Json → Exec Json
default_if_missing key value spec = if is_some (get key spec) then done spec else set key value spec

abbrev pub add_defaults : Json → Exec Json
add_defaults spec = do
  surged ← default_if_missing "maxSurge" (text "25%") spec
  bounded ← default_if_missing "maxUnavailable" (text "0") surged
  default_if_missing "progressDeadlineSeconds" (other "600") bounded

abbrev pub drop_fields : Json → Json
drop_fields (object m) =
    object (remove "progressDeadlineSeconds" (remove "maxUnavailable" (remove "maxSurge" m)))
drop_fields spec = spec

abbrev pub change_found : (Json → Exec Json) → Members → Option Json → Exec Members
change_found f m none = done m
change_found f m (some spec) = f spec >>= λ new. done (put "spec" new m)

-- `get_mut("spec")`.
abbrev pub change_spec : (Json → Exec Json) → Members → Exec Members
change_spec f m = change_found f m (find "spec" m)

abbrev pub change_members : (Json → Exec Json) → String → Members → Exec Conversion
change_members f desired_version m =
    change_spec f (put "apiVersion" (text ("kulta.io/" ++ desired_version)) m) >>= λ after.
    done (converted (object after))

abbrev pub convert_members : String → String → Members → Exec Conversion
convert_members current_version desired_version m =
    if str_eq current_version desired_version
    then done (converted (object m))
    else if str_eq current_version "v1alpha1" && str_eq desired_version "v1beta1"
    then change_members add_defaults desired_version m
    else if str_eq current_version "v1beta1" && str_eq desired_version "v1alpha1"
    then change_members (λ spec. done (drop_fields spec)) desired_version m
    else done (refused ("Unsupported conversion: " ++ current_version ++ " -> " ++ desired_version))

abbrev pub convert_versioned : Members → String → Option String → Exec Conversion
convert_versioned m desired_version none =
    done (refused ("Missing apiVersion" ++ object_context (object m)))
convert_versioned m desired_version (some api_version) =
    convert_members (extract_version api_version) desired_version m

-- Only an object has an `apiVersion`.
unfoldable pub convert_object : Json → String → Exec Conversion
convert_object (object m) desired_version =
    convert_versioned m desired_version (and_then (find "apiVersion" m) as_str)
convert_object obj desired_version = done (refused ("Missing apiVersion" ++ object_context obj))

pub record ConversionRequest : Type 0 where
  pub uid : String
  pub desired_api_version : String
  pub objects : List Json

-- The status is "Failed" if there is a message, and "Success" if there is none.
pub record ConversionResponse : Type 0 where
  pub uid : String
  pub message : Option String
  pub converted_objects : List Json

abbrev pub failed : String → String → ConversionResponse
failed uid message = record { uid = uid; message = some message; converted_objects = [] }

abbrev pub prepend : Json → ConversionResponse → ConversionResponse
prepend obj response =
    if is_some response.message
    then response
    else record response { converted_objects = obj ∷ response.converted_objects }

-- The object's conversion, before those of the objects after it.
abbrev pub with_object : String → Conversion → Exec ConversionResponse → Exec ConversionResponse
with_object uid (refused e) rest = done (failed uid e)
with_object uid (converted obj) rest = rest >>= λ response. done (prepend obj response)

unfoldable pub convert_objects : String → String → List Json → Exec ConversionResponse
convert_objects uid desired_version [] =
    done (record { uid = uid; message = none; converted_objects = [] })
convert_objects uid desired_version (obj ∷ objs) =
    let rest = convert_objects uid desired_version objs in
    convert_object obj desired_version >>= λ conversion. with_object uid conversion rest

unfoldable pub convert_rollout : ConversionRequest → Exec ConversionResponse
convert_rollout request =
    let desired_version = extract_version request.desired_api_version in
    if not (str_eq desired_version "v1alpha1") && not (str_eq desired_version "v1beta1")
    then done (failed request.uid ("Unsupported API version: " ++ desired_version))
    else convert_objects request.uid desired_version request.objects
