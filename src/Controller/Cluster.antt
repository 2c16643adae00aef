-- ===== src/Controller/Cluster.antt =====
-- The API server as the reconciler uses it (controller-runtime's client, which is not part of this
-- repository), and the two parts of a target handler that call it: `read` and `apply` of
-- internal/controller/targets.go. A read does not change the world; what others write in between is
-- part of the world that the next write returns. A deadline that passes is an error of a call.
pub mod Quiet
use unifi_reactor.Base.{
  ℕ, Bool, true, false, not, ◌&&◌, ◌||◌, List, [], ◌∷◌, ◌++◌, Option, none, some, if◌then◌else◌,
  ◌==◌,
}
use unifi_reactor.Base.Text.{Text, codes, same, has_prefix}
use unifi_reactor.Base.Int.{ℤ, pos, same_ℤ}
use unifi_reactor.Base.Decimal.{format_int, format_bool}
use unifi_reactor.Base.Dict.{Dict, lookup, insert}
use unifi_reactor.Controller.Automation.{Automation}
use unifi_reactor.Controller.Handlers.{Shape, replica, switch, level_set, level_of_flag}
use unifi_reactor.Controller.Claims.{TargetKey, key_text}

-- The classes of API error that the code tells apart.
pub data ErrorClass : Type 0 where
  forbidden conflict not_found internal : ErrorClass

pub record Error : Type 0 where
  pub class : ErrorClass
  pub message : Text

pub data Result (A : Type 0) : Type 0 where
  ok : A → Result A
  err : Error → Result A

-- `fmt.Errorf("...: %w", err)`: the class stays.
abbrev pub wrap : Text → Error → Error
wrap context e = record e { message = context ++ (codes ": " ++ e.message) }

abbrev pub failure : Text → Error
failure message = record { class = internal; message = message }

-- A field of `spec` of a target, read as a bool.
pub data Field : Type 0 where
  flag : Bool → Field
  mistyped_field : Field

-- An unstructured object: what the handlers read and write of it.
pub record Object : Type 0 where
  pub key : TargetKey
  pub annotations : Dict Text
  pub spec : Dict Field

-- `spec.replicas` of a scale subresource.
pub data Replicas : Type 0 where
  unset_replicas mistyped_replicas : Replicas
  count : ℤ → Replicas

-- An autoscaler's name and its `spec.scaleTargetRef`, if it has one.
pub record Autoscaler : Type 0 where
  pub name : Text
  pub target_ref : Option (Dict Text)

-- The client, and the functions of controllerutil on a list of finalizers. A failed write may leave
-- any world behind.
pub record Cluster : Type 1 where
  pub World : Type 0
  pub get_object : TargetKey → World → Result Object
  pub get_scale : TargetKey → World → Result Replicas
  pub update_scale : TargetKey → ℤ → World → Option Error × World
  pub patch_object : (guard : Bool) (before after : Object) → World → Result Object × World
  pub list_automations : World → Result (List Automation)
  pub list_automations_in : (namespace : Text) → World → Result (List Automation)
  pub update_automation : Automation → World → Option Error × World
  pub update_status : Automation → World → Option Error × World
  pub contains_finalizer : List Text → Text → Bool
  pub add_finalizer : List Text → Text → List Text
  pub remove_finalizer : List Text → Text → List Text
  pub list_autoscalers : (namespace : Text) → World → Result (List Autoscaler)

-- What a write leaves behind: whether it changed anything, its error, the object in memory and the
-- world.
pub record Done (World : Type 0) : Type 0 where
  pub changed : Bool
  pub error : Option Error
  pub target : Object
  pub world : World

-- `unstructured.NestedBool`: an absent field is false.
unfoldable pub nested_bool : Text → Object → Result Bool
nested_bool field obj = elim (lookup field obj.spec) [
  | none ↦ ok false
  | some (flag b) ↦ ok b
  | some mistyped_field ↦ err (failure (codes "value is not a bool"))
]

-- The value that `unstructured.NestedInt64` gives for an absent field is 0; `read` takes 1 instead,
-- the API's default.
unfoldable pub replicas_or : ℤ → Replicas → Result ℤ
replicas_or default unset_replicas = ok default
replicas_or default (count n) = ok n
replicas_or default mistyped_replicas = err (failure (codes "value is not an int64"))

unfoldable pub map_error {ℓ} : {A : Type 0} {B : Type ℓ} → (A → B) → (Error → B) → Result A → B
map_error f g (ok a) = f a
map_error f g (err e) = g e

module _ (c : Cluster) where
  open c use {World, get_scale, update_scale, patch_object}

  abbrev pub unchanged : Object → World → Done World
  unchanged target w = record { changed = false; error = none; target = target; world = w }

  abbrev pub failed : Bool → Error → Object → World → Done World
  failed changed e target w = record {
    changed = changed;
    error = some e;
    target = target;
    world = w;
  }

  -- `scaleOf`
  unfoldable pub scale_of : Object → World → Result Replicas
  scale_of obj w =
      map_error ok (λ e. err (wrap (codes "reading the scale of " ++ key_text obj.key) e))
        (get_scale obj.key w)

  read_replicas : ℤ → Object → World → Result ℤ
  unfolding scale_of
  read_replicas default obj w =
      map_error
        (λ r.
          map_error ok (λ e. err (wrap (codes "reading the scale of " ++ key_text obj.key) e))
            (replicas_or default r))
        err (scale_of obj w)

  read_flag : Text → Object → Result Bool
  read_flag field obj =
      map_error ok
        (λ e.
          err (wrap (codes "reading [spec " ++ (field ++ (codes "] of " ++ key_text obj.key))) e))
        (nested_bool field obj)

  -- `handler.read`
  unfoldable pub read : Shape → Object → World → Result ℤ
  unfolding read_replicas read_flag
  read replica obj w = read_replicas (pos 1) obj w
  read (switch field set clear) obj w =
      map_error (λ b. ok (level_of_flag b)) err (read_flag field obj)

  write_replicas : Object → ℤ → World → Done World
  write_replicas obj level w =
      let (sent, w') = update_scale obj.key level w in
      elim sent [
        | none ↦ record { changed = true; error = none; target = obj; world = w' }
        | some e ↦
            failed false
              (wrap (codes "scaling " ++ (key_text obj.key ++ (codes " to " ++ format_int level)))
                e)
              obj w'
      ]

  write_flag : Text → Bool → Object → World → Done World
  write_flag field want obj w =
      let after = record obj { spec = insert field (flag want) obj.spec } in
      let (sent, w') = patch_object false obj after w in
      elim sent [
        | ok obj' ↦ record { changed = true; error = none; target = obj'; world = w' }
        | err e ↦
            failed false
              (wrap
                (codes "setting "
                  ++ (field
                      ++ (codes " to "
                          ++ (format_bool want ++ (codes " on " ++ key_text obj.key)))))
                e)
              after w'
      ]

  -- `handler.apply`
  unfoldable pub apply : Shape → Object → ℤ → World → Done World
  unfolding read_replicas read_flag write_replicas write_flag
  apply replica obj level w =
      map_error
        (λ current.
          let written = write_replicas obj level w in
          if same_ℤ current level then unchanged obj w else written)
        (λ e. failed false e obj w) (read_replicas (pos 0) obj w)
  apply (switch field set clear) obj level w =
      let want = same_ℤ level level_set in
      map_error
        (λ current.
          let written = write_flag field want obj w in
          if (current && want) || not (current || want) then unchanged obj w else written)
        (λ e. failed false e obj w) (read_flag field obj)
