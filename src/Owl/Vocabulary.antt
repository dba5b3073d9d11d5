-- ===== src/Owl/Vocabulary.antt =====
-- The constant IRIs of src/functions/rdf_owl_rl/rules.rs and inconsistency.rs.
use sqlite_sparql.Rdf.{NamedNode}

abbrev pub rdfs_sub_class_of : NamedNode
rdfs_sub_class_of = "http://www.w3.org/2000/01/rdf-schema#subClassOf"

abbrev pub rdfs_sub_property_of : NamedNode
rdfs_sub_property_of = "http://www.w3.org/2000/01/rdf-schema#subPropertyOf"

abbrev pub rdfs_domain : NamedNode
rdfs_domain = "http://www.w3.org/2000/01/rdf-schema#domain"

abbrev pub rdfs_range : NamedNode
rdfs_range = "http://www.w3.org/2000/01/rdf-schema#range"

abbrev pub owl_equivalent_class : NamedNode
owl_equivalent_class = "http://www.w3.org/2002/07/owl#equivalentClass"

abbrev pub owl_equivalent_property : NamedNode
owl_equivalent_property = "http://www.w3.org/2002/07/owl#equivalentProperty"

abbrev pub owl_inverse_of : NamedNode
owl_inverse_of = "http://www.w3.org/2002/07/owl#inverseOf"

abbrev pub owl_same_as : NamedNode
owl_same_as = "http://www.w3.org/2002/07/owl#sameAs"

abbrev pub owl_transitive_property : NamedNode
owl_transitive_property = "http://www.w3.org/2002/07/owl#TransitiveProperty"

abbrev pub owl_symmetric_property : NamedNode
owl_symmetric_property = "http://www.w3.org/2002/07/owl#SymmetricProperty"

abbrev pub owl_functional_property : NamedNode
owl_functional_property = "http://www.w3.org/2002/07/owl#FunctionalProperty"

abbrev pub owl_class : NamedNode
owl_class = "http://www.w3.org/2002/07/owl#Class"

abbrev pub owl_object_property : NamedNode
owl_object_property = "http://www.w3.org/2002/07/owl#ObjectProperty"

abbrev pub owl_datatype_property : NamedNode
owl_datatype_property = "http://www.w3.org/2002/07/owl#DatatypeProperty"

abbrev pub owl_thing : NamedNode
owl_thing = "http://www.w3.org/2002/07/owl#Thing"

abbrev pub owl_nothing : NamedNode
owl_nothing = "http://www.w3.org/2002/07/owl#Nothing"

abbrev pub owl_irreflexive_property : NamedNode
owl_irreflexive_property = "http://www.w3.org/2002/07/owl#IrreflexiveProperty"

abbrev pub owl_asymmetric_property : NamedNode
owl_asymmetric_property = "http://www.w3.org/2002/07/owl#AsymmetricProperty"

abbrev pub owl_property_disjoint_with : NamedNode
owl_property_disjoint_with = "http://www.w3.org/2002/07/owl#propertyDisjointWith"

abbrev pub owl_all_disjoint_properties : NamedNode
owl_all_disjoint_properties = "http://www.w3.org/2002/07/owl#AllDisjointProperties"

abbrev pub owl_source_individual : NamedNode
owl_source_individual = "http://www.w3.org/2002/07/owl#sourceIndividual"

abbrev pub owl_assertion_property : NamedNode
owl_assertion_property = "http://www.w3.org/2002/07/owl#assertionProperty"

abbrev pub owl_target_individual : NamedNode
owl_target_individual = "http://www.w3.org/2002/07/owl#targetIndividual"

abbrev pub owl_target_value : NamedNode
owl_target_value = "http://www.w3.org/2002/07/owl#targetValue"

abbrev pub owl_complement_of : NamedNode
owl_complement_of = "http://www.w3.org/2002/07/owl#complementOf"

abbrev pub owl_disjoint_with : NamedNode
owl_disjoint_with = "http://www.w3.org/2002/07/owl#disjointWith"

abbrev pub owl_all_disjoint_classes : NamedNode
owl_all_disjoint_classes = "http://www.w3.org/2002/07/owl#AllDisjointClasses"

abbrev pub owl_different_from : NamedNode
owl_different_from = "http://www.w3.org/2002/07/owl#differentFrom"

abbrev pub owl_all_different : NamedNode
owl_all_different = "http://www.w3.org/2002/07/owl#AllDifferent"

abbrev pub owl_members : NamedNode
owl_members = "http://www.w3.org/2002/07/owl#members"

abbrev pub owl_distinct_members : NamedNode
owl_distinct_members = "http://www.w3.org/2002/07/owl#distinctMembers"

abbrev pub owl_max_cardinality : NamedNode
owl_max_cardinality = "http://www.w3.org/2002/07/owl#maxCardinality"

abbrev pub owl_max_qualified_cardinality : NamedNode
owl_max_qualified_cardinality = "http://www.w3.org/2002/07/owl#maxQualifiedCardinality"

abbrev pub owl_on_property : NamedNode
owl_on_property = "http://www.w3.org/2002/07/owl#onProperty"

abbrev pub owl_on_class : NamedNode
owl_on_class = "http://www.w3.org/2002/07/owl#onClass"

abbrev pub owl_has_value : NamedNode
owl_has_value = "http://www.w3.org/2002/07/owl#hasValue"

abbrev pub owl_some_values_from : NamedNode
owl_some_values_from = "http://www.w3.org/2002/07/owl#someValuesFrom"

abbrev pub owl_all_values_from : NamedNode
owl_all_values_from = "http://www.w3.org/2002/07/owl#allValuesFrom"

abbrev pub owl_intersection_of : NamedNode
owl_intersection_of = "http://www.w3.org/2002/07/owl#intersectionOf"

abbrev pub owl_union_of : NamedNode
owl_union_of = "http://www.w3.org/2002/07/owl#unionOf"

abbrev pub owl_one_of : NamedNode
owl_one_of = "http://www.w3.org/2002/07/owl#oneOf"

abbrev pub owl_inverse_functional_property : NamedNode
owl_inverse_functional_property = "http://www.w3.org/2002/07/owl#InverseFunctionalProperty"

abbrev pub owl_property_chain_axiom : NamedNode
owl_property_chain_axiom = "http://www.w3.org/2002/07/owl#propertyChainAxiom"

abbrev pub owl_has_key : NamedNode
owl_has_key = "http://www.w3.org/2002/07/owl#hasKey"

abbrev pub rdfs_datatype : NamedNode
rdfs_datatype = "http://www.w3.org/2000/01/rdf-schema#Datatype"
