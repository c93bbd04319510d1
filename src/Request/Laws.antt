-- ===== src/Request/Laws.antt =====
-- The laws of request states.
use likedao.Common.{◌≡◌, refl}
use likedao.Request.{
  RequestState, initial, loading, loaded, failed, map_request_data, request_state_type,
}

-- Mapping the data of a request keeps its state, and mapping twice is mapping once.
pub map_request_data_laws :
    {T U V : Type 0} (state : RequestState T) (f : T → U) (g : U → V)
    → (request_state_type (map_request_data state f) ≡ request_state_type state)
      × (map_request_data (map_request_data state f) g ≡ map_request_data state (λ x. g (f x)))
unfolding map_request_data
map_request_data_laws initial f g = (refl, refl)
map_request_data_laws loading f g = (refl, refl)
map_request_data_laws (loaded value) f g = (refl, refl)
map_request_data_laws (failed reason) f g = (refl, refl)
