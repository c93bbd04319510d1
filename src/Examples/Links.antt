-- ===== src/Examples/Links.antt =====
-- Two operations that are both answered as unauthenticated: the first signs in and is sent again,
-- the second is answered while that sign-in is under way and keeps its error.
use likedao.Common.{◌*◌, ◌≤◌, ◌≡◌, refl, ◌⊎◌, false, some, [], ◌∷◌}
use likedao.Request.ServerError.{ApolloError}
use likedao.Apollo.{
  sent, signing_in, delivered, LinkState, initial_link, issue, on_error, after_sign_in, deliver,
  clear, starts_sign_in, Step, answers, signs_in, clears, answers_again, Run, begins, issues, steps,
}
use likedao.Apollo.Runs.{sign_ins, logging_in, AllAnswered, link_runs}

abbrev denied : ApolloError
denied = record { has_network_error = false; graphql_error_codes = some "UNAUTHENTICATED" ∷ [] }

abbrev granted : ApolloError
granted = record { has_network_error = false; graphql_error_codes = [] }

abbrev both_sent : LinkState
both_sent = issue (issue initial_link)

abbrev first_denied : LinkState
first_denied = on_error both_sent [] (sent ∷ []) denied

abbrev second_denied : LinkState
second_denied = on_error first_denied (signing_in ∷ []) [] denied

abbrev signed_in : LinkState
signed_in = after_sign_in second_denied [] (delivered denied ∷ [])

abbrev first_granted : LinkState
first_granted = deliver signed_in [] (delivered denied ∷ []) granted

abbrev cleared : LinkState
cleared = clear first_granted 0

run : Run 2 5 cleared
unfolding issue on_error starts_sign_in after_sign_in deliver
run =
    steps
      (steps
        (steps
          (steps (steps (issues (issues begins)) (answers [] (sent ∷ []) denied refl))
            (answers (signing_in ∷ []) [] denied refl))
          (signs_in [] (delivered denied ∷ []) refl))
        (answers_again [] (delivered denied ∷ []) granted refl))
      (clears refl)

link_runs_example :
    (5 ≤ 4 * 2)
    × (sign_ins cleared ≡ logging_in cleared)
    × ((AllAnswered cleared.operations × (cleared.is_logging_in ≡ false))
        ⊎ ((t : LinkState) × Step cleared t))
link_runs_example = link_runs run

second_keeps_error : cleared.operations ≡ delivered granted ∷ delivered denied ∷ []
unfolding issue on_error starts_sign_in after_sign_in deliver clear
second_keeps_error = refl
