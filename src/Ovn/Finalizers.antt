-- ===== src/Ovn/Finalizers.antt =====
-- controller-runtime's functions on the finalizers of an object.
use zstack_ovn_kubernetes.Base.{Bool, false, ◌||◌, List, [], ◌∷◌, Text, text_eq, if◌then◌else◌}

-- controllerutil.ContainsFinalizer.
unfoldable pub contains_finalizer : Text → List Text → Bool
contains_finalizer name [] = false
contains_finalizer name (f ∷ fs) = text_eq f name || contains_finalizer name fs

-- controllerutil.RemoveFinalizer.
unfoldable pub remove_finalizer : Text → List Text → List Text
remove_finalizer name [] = []
remove_finalizer name (f ∷ fs) =
    let rest = remove_finalizer name fs in if text_eq f name then rest else f ∷ rest
