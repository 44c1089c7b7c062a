-- ===== src/Config/CniFile.antt =====
-- pkg/config/cni.go: the configuration file that the CNI plugin is given.
use zstack_ovn_kubernetes.Base.{◌≡◌, refl, Bool, Text, codes, decimal_int, decimal, decimal_fuel}
use zstack_ovn_kubernetes.Json.{Json, number, str, arr, obj, none_left, element, no_member, member}
use zstack_ovn_kubernetes.Json.Indent.{print_indent}
use zstack_ovn_kubernetes.Config.{Config, default_config}

-- A map is written with its keys in order.
abbrev pub cni_file_json : Config → Json
cni_file_json cfg = obj (
    member (codes "cniVersion") (str (codes "1.0.0")) (
      member (codes "name") (str (codes "zstack-ovn"))
        (member (codes "plugins") (arr (element (plugin cfg) none_left)) no_member)))
  where
    plugin : Config → Json
    plugin cfg = obj (
        member (codes "logFile") (str (codes "/var/log/zstack-ovn/cni.log")) (
          member (codes "logLevel") (str cfg.logging.level) (
            member (codes "mtu") (number (decimal_int cfg.network.mtu)) (
              member (codes "serverSocket") (str (codes "/var/run/zstack-ovn/cni-server.sock"))
                (member (codes "type") (str (codes "zstack-ovn-cni")) no_member)))))

-- These values are all encoded without an error.
unfoldable pub generate_cni_config_file : Config → Text
unfolding print_indent decimal
generate_cni_config_file cfg = print_indent 0 (cni_file_json cfg)

-- os.WriteFile is a parameter: the files after it, and whether it succeeded.
abbrev pub write_cni_config_file :
    {F : Type 0} → (Text → Text → F → F × Bool) → Config → Text → F → F × Bool
write_cni_config_file write cfg path files = write path (generate_cni_config_file cfg) files

default_file :
    generate_cni_config_file default_config
    ≡ codes
        "{\n  \"cniVersion\": \"1.0.0\",\n  \"name\": \"zstack-ovn\",\n  \"plugins\": [\n    {\n      \"logFile\": \"/var/log/zstack-ovn/cni.log\",\n      \"logLevel\": \"info\",\n      \"mtu\": 1400,\n      \"serverSocket\": \"/var/run/zstack-ovn/cni-server.sock\",\n      \"type\": \"zstack-ovn-cni\"\n    }\n  ]\n}"
unfolding generate_cni_config_file decimal_fuel
default_file = refl
