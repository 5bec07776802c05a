-- ===== src/Tests/Throttles.antt =====
-- The theorem on chains of redirects at given hops.
use thorium_frugal.Base.{
  length, ◌≤◌, arith, ◌≡◌, refl, not, ◌||◌, List, [], ◌∷◌, some, Bytes, codes, any,
}
use thorium_frugal.Types.{other, script, is_block}
use thorium_frugal.Text.{
  getlines, find_if, find_last_if, is_empty, begins_with_byte, starts_with, find, ends_with_byte,
  pop_back, to_lower, tolower,
}
use thorium_frugal.Text.Decimal.{to_string}
use thorium_frugal.RuleParser.{parse_text, parse_line, trim, is_text_byte}
use thorium_frugal.RuleDatabase.{max_rules}
use thorium_frugal.PolicyManager.{page_policy, evaluate_request}
use thorium_frugal.Throttle.Cancels.{refuses}
use thorium_frugal.Throttle.FilterLists.{rules_of, with_lists, filter_lists_lem}
use thorium_frugal.Throttle.{
  sanitized, will_start_request, NavigationHandle, RedirectInfo, convert_resource_type,
}
use thorium_frugal.Throttle.Chains.{load, navigate}
use thorium_frugal.Throttle.Followed.{refused_load, refused_hop, chains_lem}
use thorium_frugal.Throttle.Reported.{IsReported, load-navigate-IsReported}
use thorium_frugal.Tests.{rules_text, tracker_url, page, database, rules, database-Represents}
use thorium_frugal.Tests.Manager.{manager, spec_of, resource, redirect, navigation}

abbrev redirects : List (Bytes × RedirectInfo Bytes spec_of spec_of)
redirects = (codes "later", redirect) ∷ []

abbrev hops : List (Bytes × NavigationHandle Bytes spec_of spec_of)
hops = (codes "later", record navigation { handle_url = page }) ∷ []

chains_example :
    ((load Bytes spec_of spec_of manager (codes "now") resource redirects).0
      ≡ not (
          refused_load Bytes spec_of spec_of manager rules
            (codes "now")
            tracker_url
            (some page)
            (convert_resource_type 3)
          || any
              (λ d.
                refused_load Bytes spec_of spec_of manager rules d.0 d.1.new_url d.1.new_initiator
                  other)
              redirects))
    × ((navigate Bytes spec_of spec_of manager (codes "now") navigation hops).0
        ≡ not (
            refused_hop Bytes spec_of spec_of manager rules navigation
            || any (λ h. refused_hop Bytes spec_of spec_of manager rules h.1) hops))
chains_example =
    chains_lem Bytes spec_of spec_of manager database rules refl database-Represents (codes "now")
      resource redirects navigation hops

load-navigate-IsReported_example :
    IsReported manager (load Bytes spec_of spec_of manager (codes "now") resource redirects)
    × IsReported manager (navigate Bytes spec_of spec_of manager (codes "now") navigation hops)
load-navigate-IsReported_example =
    load-navigate-IsReported Bytes spec_of spec_of manager (codes "now") resource redirects
      navigation hops

abbrev texts : List Bytes
texts = rules_text ∷ codes "||more.net^" ∷ []

texts_fit : length (rules_of texts) ≤ max_rules
unfolding parse_text getlines to_string parse_line trim is_text_byte find_if find_last_if is_empty
    begins_with_byte starts_with find ends_with_byte pop_back to_lower tolower
texts_fit = omega arith

filter_lists_example :
    (is_block
        (evaluate_request
          (with_lists manager texts)
          (codes "now")
          tracker_url
          page
          script).0.decision
      ≡ refuses manager.enabled (page_policy manager page) (rules_of texts) tracker_url page script)
    × ((will_start_request Bytes spec_of spec_of
          (with_lists manager texts)
          (codes "now")
          (some resource)).1
        ≡ refuses manager.enabled
            (page_policy manager page)
            (rules_of texts)
            (sanitized Bytes spec_of spec_of (with_lists manager texts) (codes "now") tracker_url).0
            page
            (convert_resource_type 3))
filter_lists_example =
    filter_lists_lem manager texts Bytes spec_of spec_of (codes "now") tracker_url page script
      resource texts_fit
