-- ===== src/Tests/DomainRules.antt =====
-- The theorem on a block rule and an allow rule for domains, at `ads.com` and `ok.ads.com`.
use thorium_frugal.Base.{arith, ◌≡◌, refl, not, ◌&&◌, Bytes, any, codes}
use thorium_frugal.Text.{to_lower, tolower, is_empty}
use thorium_frugal.Types.{script, is_block}
use thorium_frugal.Classifier.{extract_hostname, normalize_host}
use thorium_frugal.PolicyManager.{is_allow_all, page_policy, evaluate_request}
use thorium_frugal.RuleDatabase.Under.{is_under}
use thorium_frugal.Throttle.FilterLists.{with_lists}
use thorium_frugal.Throttle.DomainRules.{two_texts, domain_rules_lem}
use thorium_frugal.RuleParser.DomainRule.{IsDomain}
use thorium_frugal.Tests.{tracker_url, page, lacks}
use thorium_frugal.Tests.Manager.{manager}

abbrev ads : Bytes
ads = codes "ads.com"

abbrev ok_ads : Bytes
ok_ads = codes "ok.ads.com"

ads-IsDomain : IsDomain ads
unfolding is_empty to_lower tolower any
ads-IsDomain = record {
  named = refl;
  low = refl;
  no_slash = lacks b'/' ads refl;
  no_dollar = lacks b'$' ads refl;
  no_newline = lacks b'\n' ads refl;
  short = omega arith;
}

ok_ads-IsDomain : IsDomain ok_ads
unfolding is_empty to_lower tolower any
ok_ads-IsDomain = record {
  named = refl;
  low = refl;
  no_slash = lacks b'/' ok_ads refl;
  no_dollar = lacks b'$' ok_ads refl;
  no_newline = lacks b'\n' ok_ads refl;
  short = omega arith;
}

domain_rules_example :
    is_block
      (evaluate_request
        (with_lists manager (two_texts ads ok_ads ads-IsDomain ok_ads-IsDomain))
        (codes "now")
        tracker_url
        page
        script).0.decision
    ≡ (manager.enabled
        && (not (is_allow_all (page_policy manager page))
            && (not (is_under ok_ads (normalize_host (extract_hostname tracker_url)))
                && is_under ads (normalize_host (extract_hostname tracker_url)))))
domain_rules_example =
    domain_rules_lem ads ok_ads ads-IsDomain ok_ads-IsDomain manager (codes "now") tracker_url page
      script
